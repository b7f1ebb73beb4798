-- ===== src/Imap/List.antt =====
-- crates/imap-proto/src/command/list.rs: mailboxes as LIST shows them.
use brev.Base.{
  ◌≡◌, ◌↔◌, Bool, true, false, List, [], ◌∷◌, ◌++◌, arith, Bytes, codes, crlf, Option, none, some,
}
use brev.Flags.{Flags, Bitflags, names}
use brev.Imap.Flag.{fmt_paren_list}

pub data Attribute : Type 0 where
  non_existent noinferiors noselect has_children has_no_children marked : Attribute
  unmarked subscribed remote all_ archive drafts : Attribute
  flagged junk sent trash : Attribute

abbrev pub attribute_name : Attribute → Bytes
attribute_name non_existent = codes "\\NonExistent"
attribute_name noinferiors = codes "\\Noinferiors"
attribute_name noselect = codes "\\Noselect"
attribute_name has_children = codes "\\HasChildren"
attribute_name has_no_children = codes "\\HasNoChildren"
attribute_name marked = codes "\\Marked"
attribute_name unmarked = codes "\\Unmarked"
attribute_name subscribed = codes "\\Subscribed"
attribute_name remote = codes "\\Remote"
attribute_name all_ = codes "\\All"
attribute_name archive = codes "\\Archive"
attribute_name drafts = codes "\\Drafts"
attribute_name flagged = codes "\\Flagged"
attribute_name junk = codes "\\Junk"
attribute_name sent = codes "\\Sent"
attribute_name trash = codes "\\Trash"

abbrev pub attribute_equal : Attribute → Attribute → Bool
attribute_equal non_existent non_existent = true
attribute_equal noinferiors noinferiors = true
attribute_equal noselect noselect = true
attribute_equal has_children has_children = true
attribute_equal has_no_children has_no_children = true
attribute_equal marked marked = true
attribute_equal unmarked unmarked = true
attribute_equal subscribed subscribed = true
attribute_equal remote remote = true
attribute_equal all_ all_ = true
attribute_equal archive archive = true
attribute_equal drafts drafts = true
attribute_equal flagged flagged = true
attribute_equal junk junk = true
attribute_equal sent sent = true
attribute_equal trash trash = true
attribute_equal _ _ = false

pub attribute_equal_iff : (a b : Attribute) → (attribute_equal a b ≡ true) ↔ (a ≡ b)
attribute_equal_iff a b = ground arith

-- `Attributes`.
abbrev pub attribute_flags : Flags
attribute_flags = record {
  Flag = Attribute;
  declared =
      non_existent ∷ noinferiors ∷ noselect ∷ has_children ∷ has_no_children ∷ marked ∷ unmarked
      ∷ subscribed ∷ remote ∷ all_ ∷ archive ∷ drafts ∷ flagged ∷ junk ∷ sent ∷ trash ∷ [];
  serialized = attribute_name;
  equal = attribute_equal;
  equal_iff = attribute_equal_iff;
}

-- `Display` of `Option<char>` for the hierarchy delimiter; a `char` is its UTF-8 bytes.
unfoldable pub delimiter_to_string : Option Bytes → Bytes
delimiter_to_string (some delimiter) = b'"' ∷ (delimiter ++ b'"' ∷ [])
delimiter_to_string none = codes "NIL"

module _ (b : Bitflags attribute_flags) where
  -- `Display` of `Attributes`.
  unfoldable pub attributes_to_string : b.Set → Bytes
  unfolding names fmt_paren_list
  attributes_to_string s = fmt_paren_list (names attribute_flags b s)

  pub record ListItem : Type 0 where
    pub name : Bytes
    pub attributes : b.Set
    pub hierarchy_delimiter : Option Bytes

  -- `ListItem::new`.
  abbrev pub list_item : Bytes → b.Set → ListItem
  list_item name attributes = record {
    name = name;
    attributes = attributes;
    hierarchy_delimiter = none;
  }

  -- `Display` of `ListItem`.
  unfoldable pub list_item_to_string : ListItem → Bytes
  unfolding attributes_to_string delimiter_to_string
  list_item_to_string i =
      codes "* LIST "
      ++ (attributes_to_string i.attributes
          ++ b' '
            ∷ (delimiter_to_string i.hierarchy_delimiter
                ++ b' ' ∷ (b'"' ∷ (i.name ++ b'"' ∷ crlf))))

  -- `Display` of `Response`.
  unfoldable pub list_response : List ListItem → Bytes
  unfolding list_item_to_string
  list_response [] = []
  list_response (i ∷ rest) = list_item_to_string i ++ list_response rest
