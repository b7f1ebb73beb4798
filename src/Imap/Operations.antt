-- ===== src/Imap/Operations.antt =====
-- src/operations.rs and src/operations: what the caller of a session does with an operation.
pub mod Served
use brev.Base.{Bool, Option, none, some, [], ◌∷◌, Bytes, codes}
use brev.Flags.{Bitflags}
use brev.Imap.Response.{Tag}
use brev.Imap.List
use brev.Imap.List.{attribute_flags, ListItem, list_item}
use brev.Imap.Ops
use brev.Imap.Ops.{Operation, OpResponse, OpResult, SelectResult, done}

module _ (b : Bitflags attribute_flags) where
  unfoldable pub list_operation : OpResponse b
  list_operation = OpResponse.list (
      list_item b (codes "INBOX") b.empty
      ∷ list_item b (codes "Drafts") (b.flag List.drafts)
      ∷ list_item b (codes "Sent") (b.flag List.sent)
      ∷ list_item b (codes "Archive") (b.flag List.archive)
      ∷ list_item b (codes "Junk") (b.flag List.junk)
      ∷ list_item b (codes "Trash") (b.flag List.trash)
      ∷ [])

  unfoldable pub select_operation : Bytes → Bool → OpResponse b
  select_operation mailbox read_only = OpResponse.select (record {
    flags = [];
    exists = 32;
    uid_validity = 58943;
    next_uid = 432;
    mailbox = record { name = mailbox; attributes = b.empty; hierarchy_delimiter = none };
    read_only = read_only;
  })

  -- `handle`, with what it sends on the channel; none where the operation is `todo!()`.
  unfoldable pub handle_operation : Operation → Option (Tag × OpResult b)
  unfolding list_operation select_operation
  handle_operation (Operation.fetch chosen is_uid set wanted tag) = none
  handle_operation (Operation.list reference mailbox tag) = some (tag, done list_operation)
  handle_operation (Operation.select mailbox read_only tag) =
      some (tag, done (select_operation mailbox read_only))
  handle_operation (Operation.create mailbox tag) = none
