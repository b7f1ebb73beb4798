-- ===== src/Imap/Select.antt =====
-- crates/imap-proto/src/command/select.rs: the response to SELECT and EXAMINE; with it
-- crates/imap-proto/src/exists.rs and recent.rs.
use brev.Base.{ℕ, Bool, List, ◌++◌, Bytes, codes, crlf, if◌then◌else◌}
use brev.Base.Decimal.{show}
use brev.Flags.{Bitflags}
use brev.Imap.Flag.{Flag, flags_response}
use brev.Imap.List.{attribute_flags, ListItem, list_item_to_string}
use brev.Imap.Response.{Tag}

-- `exists::Response`, `recent::Response`.
unfoldable pub exists_response : ℕ → Bytes
exists_response n = show n ++ codes " EXISTS"

unfoldable pub recent_response : ℕ → Bytes
recent_response n = show n ++ codes " RECENT"

-- `Uid` of crates/imap-proto/src/lib.rs, with its `Display`.
abbrev pub Uid : Type 0
Uid = ℕ

abbrev pub uid_to_string : Uid → Bytes
uid_to_string = show

-- `write!(f, "* {}\r\n", …)`.
abbrev untagged_line : Bytes → Bytes
untagged_line text = codes "* " ++ (text ++ crlf)

module _ (b : Bitflags attribute_flags) where
  pub record SelectData : Type 0 where
    pub flags : List Flag
    pub exists : ℕ
    pub uid_validity : ℕ
    pub next_uid : Uid
    pub mailbox : ListItem b
    pub tag : Tag
    pub read_only : Bool

  -- `Display` of `Response`.
  unfoldable pub select_response : SelectData → Bytes
  unfolding flags_response exists_response list_item_to_string
  select_response r =
      untagged_line (flags_response r.flags)
      ++ (untagged_line (exists_response r.exists)
          ++ (untagged_line
                (codes "OK [UIDVALIDITY " ++ (show r.uid_validity ++ codes "] UIDs valid"))
              ++ (untagged_line (
                    codes "OK [UIDNEXT "
                    ++ (uid_to_string r.next_uid ++ codes "] Predicted next UID"))
                  ++ (list_item_to_string b r.mailbox
                      ++ (r.tag
                          ++ (codes " OK ["
                              ++ ((if r.read_only then codes "READ-ONLY" else codes "READ-WRITE")
                                  ++ (codes "] Done" ++ crlf))))))))
