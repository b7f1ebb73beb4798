-- ===== src/Imap/MailboxStatus.antt =====
-- crates/imap-proto/src/command/status.rs: what STATUS asks for and gives.
use brev.Base.{
  ℕ, ◌≡◌, ◌↔◌, Bool, true, false, List, [], ◌∷◌, ◌++◌, arith, Bytes, codes, Option, none, some,
}
use brev.Flags.{Flags}
use brev.Base.Decimal.{show}

pub data StatusItem : Type 0 where
  messages uidnext uidvalidity unseen deleted size : StatusItem

abbrev pub item_name : StatusItem → Bytes
item_name messages = codes "MESSAGES"
item_name uidnext = codes "UIDNEXT"
item_name uidvalidity = codes "UIDVALIDITY"
item_name unseen = codes "UNSEEN"
item_name deleted = codes "DELETED"
item_name size = codes "SIZE"

abbrev pub item_equal : StatusItem → StatusItem → Bool
item_equal messages messages = true
item_equal uidnext uidnext = true
item_equal uidvalidity uidvalidity = true
item_equal unseen unseen = true
item_equal deleted deleted = true
item_equal size size = true
item_equal _ _ = false

pub item_equal_iff : (a b : StatusItem) → (item_equal a b ≡ true) ↔ (a ≡ b)
item_equal_iff a b = ground arith

-- `Items`.
abbrev pub item_flags : Flags
item_flags = record {
  Flag = StatusItem;
  declared = messages ∷ uidnext ∷ uidvalidity ∷ unseen ∷ deleted ∷ size ∷ [];
  serialized = item_name;
  equal = item_equal;
  equal_iff = item_equal_iff;
}

pub record StatusData : Type 0 where
  pub mailbox : Bytes
  pub messages : Option ℕ
  pub uid_next : Option ℕ
  pub uid_validity : Option ℕ
  pub unseen : Option ℕ
  pub deleted : Option ℕ
  pub size : Option ℕ

-- The macro `fmt!`: the values that are there with their names, a blank before all but the first.
unfoldable pub fmt_items : Bool → List (Bytes × Option ℕ) → Bytes
fmt_items first [] = []
fmt_items first ((name, none) ∷ rest) = fmt_items first rest
fmt_items true ((name, some value) ∷ rest) = show value ++ b' ' ∷ (name ++ fmt_items false rest)
fmt_items false ((name, some value) ∷ rest) =
    b' ' ∷ (show value ++ b' ' ∷ (name ++ fmt_items false rest))

-- `Display` of `Response`.
unfoldable pub status_response : StatusData → Bytes
unfolding fmt_items
status_response r =
    codes "STATUS "
    ++ (r.mailbox
        ++ (codes " ("
            ++ (fmt_items true (
                  (codes "MESSAGES", r.messages)
                  ∷ (codes "UIDNEXT", r.uid_next)
                  ∷ (codes "UIDVALIDITY", r.uid_validity)
                  ∷ (codes "UNSEEN", r.unseen)
                  ∷ (codes "DELETED", r.deleted)
                  ∷ (codes "SIZE", r.size)
                  ∷ [])
                ++ b')' ∷ [])))
