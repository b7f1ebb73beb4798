-- ===== src/Imap/Fetch.antt =====
-- crates/imap-proto/src/command/fetch.rs: what FETCH asks for.
pub mod RoundTrip
use brev.Base.{
  ℕ, not, ◌&&◌, Option, none, some, List, [], ◌∷◌, Bytes, codes, same, ◌==◌, if◌then◌else◌,
}
use brev.Nom.{Nom, Parser}

pub data FetchAttribute : Type 0 where
  flags internaldate rfc822_size envelope body : FetchAttribute

-- `Attribute::from_str`.
unfoldable pub fetch_attribute_from_str : Bytes → Option FetchAttribute
unfolding same
fetch_attribute_from_str s =
    if same s (codes "FLAGS")
    then some flags
    else if same s (codes "INTERNALDATE")
    then some internaldate
    else if same s (codes "RFC822.SIZE")
    then some rfc822_size
    else if same s (codes "ENVELOPE")
    then some envelope
    else if same s (codes "BODY")
    then some body
    else none

pub data FetchItems : Type 0 where
  all fast full : FetchItems
  attributes : List FetchAttribute → FetchItems

-- `Items::attributes`.
unfoldable pub attributes_of : FetchItems → List FetchAttribute
attributes_of all = flags ∷ internaldate ∷ rfc822_size ∷ envelope ∷ []
attributes_of fast = flags ∷ internaldate ∷ rfc822_size ∷ []
attributes_of full = flags ∷ internaldate ∷ rfc822_size ∷ envelope ∷ body ∷ []
attributes_of (attributes as_listed) = as_listed

module _ (nom : Nom) where
  unfoldable pub parse_attribute : Parser FetchAttribute
  unfolding fetch_attribute_from_str
  parse_attribute =
      nom.map_res Bytes FetchAttribute (nom.take_while1 (λ c. not (c == b' ') && not (c == b')')))
        fetch_attribute_from_str

  -- `Items::parse`; its five alternatives are nested in twos.
  unfoldable pub parse_items : Parser FetchItems
  parse_items = nom.alt FetchItems (nom.map Bytes FetchItems (nom.tag (codes "ALL")) (λ _. all)) (
      nom.alt FetchItems (nom.map Bytes FetchItems (nom.tag (codes "FAST")) (λ _. fast)) (
        nom.alt FetchItems (nom.map Bytes FetchItems (nom.tag (codes "FULL")) (λ _. full)) (
          nom.alt FetchItems
            (nom.map (List FetchAttribute) FetchItems
              (nom.delimited ℕ (List FetchAttribute) ℕ (nom.char b'(')
                (nom.separated_list1 FetchAttribute ℕ (nom.char b' ') parse_attribute)
                (nom.char b')'))
              attributes)
            (nom.map FetchAttribute FetchItems parse_attribute (λ a. attributes (a ∷ []))))))
