-- ===== src/Imap/Fetch/RoundTrip.antt =====
-- What a client asks for with FETCH is parsed back from its text.
use brev.Base.{
  ℕ, ◌≡◌, refl, ◌+◌, false, some, List, [], ◌∷◌, ◌++◌, append_assoc, arith, length, Bytes, codes,
  same, ◌==◌, not, ◌&&◌,
}
use brev.Nom.{Nom, Lawful, Lists, last, next}
use brev.Imap.Fetch.{
  FetchAttribute, flags, internaldate, rfc822_size, envelope, body, fetch_attribute_from_str,
  FetchItems, all, fast, full, attributes, parse_attribute, parse_items,
}

-- The name of an attribute, and the names of some.
abbrev pub asked_name : FetchAttribute → Bytes
asked_name flags = codes "FLAGS"
asked_name internaldate = codes "INTERNALDATE"
asked_name rfc822_size = codes "RFC822.SIZE"
asked_name envelope = codes "ENVELOPE"
asked_name body = codes "BODY"

abbrev pub asked_names : FetchAttribute → List FetchAttribute → Bytes
asked_names a [] = asked_name a
asked_names a (b ∷ more) = asked_name a ++ b' ' ∷ asked_names b more

-- A macro, or attributes between parentheses.
pub data AsksFor : FetchItems → Bytes → Type 0 where
  all_macro : AsksFor all (codes "ALL")
  fast_macro : AsksFor fast (codes "FAST")
  full_macro : AsksFor full (codes "FULL")
  listed :
      (a : FetchAttribute) (more : List FetchAttribute)
      → AsksFor (attributes (a ∷ more)) (b'(' ∷ (asked_names a more ++ b')' ∷ []))

module _ (nom : Nom) (law : Lawful nom) where
  -- A name ends before a blank or a closing parenthesis.
  parse_attribute-name :
      (a : FetchAttribute) (c : ℕ) (rest : Bytes)
      → (not (c == b' ') && not (c == b')')) ≡ false
      → parse_attribute nom (asked_name a ++ c ∷ rest) ≡ some (c ∷ rest, a)
  unfolding parse_attribute fetch_attribute_from_str same
  parse_attribute-name flags c rest h = rw (law.map_res_runs, law.take_while1_runs, h) refl
  parse_attribute-name internaldate c rest h = rw (law.map_res_runs, law.take_while1_runs, h) refl
  parse_attribute-name rfc822_size c rest h = rw (law.map_res_runs, law.take_while1_runs, h) refl
  parse_attribute-name envelope c rest h = rw (law.map_res_runs, law.take_while1_runs, h) refl
  parse_attribute-name body c rest h = rw (law.map_res_runs, law.take_while1_runs, h) refl

  length-append : (a b : Bytes) → length (a ++ b) ≡ length a + length b
  length-append [] b = omega arith
  length-append (x ∷ a) b = omega (arith, length-append a b)

  Lists-asked_names :
      (a : FetchAttribute) (more : List FetchAttribute)
      → Lists
          (nom.char b' ')
          (parse_attribute nom)
          (b')' ∷ [])
          (asked_names a more ++ b')' ∷ [])
          (a ∷ more)
  Lists-asked_names a [] = last (parse_attribute-name a b')' [] refl) (law.char_runs b' ' _)
  Lists-asked_names a (b ∷ more) =
      let after : Bytes = asked_names b more ++ b')' ∷ [] in
      rw (append_assoc (asked_name a) (b' ' ∷ asked_names b more) (b')' ∷ [])) (
        next (parse_attribute-name a b' ' after refl) (law.char_runs b' ' (b' ' ∷ after))
          (omega arith) (omega (arith, length-append (asked_name a) (b' ' ∷ after)))
          (Lists-asked_names b more))

  -- A macro, or attributes between parentheses, is parsed back.
  pub parse_items-AsksFor :
      (wanted : FetchItems) (text : Bytes)
      → AsksFor wanted text
      → parse_items nom text ≡ some ([], wanted)
  unfolding parse_items same
  parse_items-AsksFor _ _ all_macro =
      rw (law.alt_runs, law.map_runs, law.tag_match (codes "ALL") []) refl
  parse_items-AsksFor _ _ fast_macro =
      rw
        (
          law.alt_runs,
          law.map_runs,
          law.tag_differs (codes "ALL") (codes "FAST") refl,
          law.alt_runs,
          law.map_runs,
          law.tag_match (codes "FAST") [],
        )
        refl
  parse_items-AsksFor _ _ full_macro =
      rw
        (
          law.alt_runs,
          law.map_runs,
          law.tag_differs (codes "ALL") (codes "FULL") refl,
          law.alt_runs,
          law.map_runs,
          law.tag_differs (codes "FAST") (codes "FULL") refl,
          law.alt_runs,
          law.map_runs,
          law.tag_match (codes "FULL") [],
        )
        refl
  parse_items-AsksFor _ _ (listed a more) =
      let text : Bytes = asked_names a more ++ b')' ∷ [] in
      rw
        (
          law.alt_runs,
          law.map_runs,
          law.tag_differs (codes "ALL") (b'(' ∷ text) refl,
          law.alt_runs,
          law.map_runs,
          law.tag_differs (codes "FAST") (b'(' ∷ text) refl,
          law.alt_runs,
          law.map_runs,
          law.tag_differs (codes "FULL") (b'(' ∷ text) refl,
          law.alt_runs,
          law.map_runs,
          law.delimited_runs,
          law.char_runs,
          law.separated_list1_lists FetchAttribute ℕ (nom.char b' ') (parse_attribute nom) text
              (b')' ∷ []) (a ∷ more) (Lists-asked_names a more),
          law.char_runs,
        )
        refl

  -- One blank stands before what is asked for.
  pub space1-AsksFor :
      (wanted : FetchItems) (text : Bytes)
      → AsksFor wanted text
      → nom.space1 (b' ' ∷ text) ≡ some (text, b' ' ∷ [])
  space1-AsksFor _ _ all_macro = law.space1_runs _
  space1-AsksFor _ _ fast_macro = law.space1_runs _
  space1-AsksFor _ _ full_macro = law.space1_runs _
  space1-AsksFor _ _ (listed a more) = law.space1_runs _
