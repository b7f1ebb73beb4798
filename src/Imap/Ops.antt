-- ===== src/Imap/Ops.antt =====
-- crates/imap/src/server/ops.rs: the operations that the session hands out, and their results.
use brev.Base.{ℕ, Bool, true, false, List, ◌++◌, Option, none, some, Bytes, codes}
use brev.Flags.{Bitflags}
use brev.Imap.Flag.{Flag}
use brev.Imap.Response.{Tag, StatusResponse, respond_ok, with_tag, tagged_to_string}
use brev.Imap.List.{attribute_flags, ListItem, list_response}
use brev.Imap.Select.{Uid, select_response}
use brev.Imap.Sequence.{SequenceSet}
use brev.Imap.Fetch.{FetchItems}
use brev.Imap.Command.{CommandName}

-- From crates/imap/src/server/session.rs; an `Identity` is its name.
pub record SelectedState : Type 0 where
  pub mailbox : Bytes
  pub read_only : Bool
  pub identity : Bytes

-- Each operation with its request, and the tag of its channel.
pub data Operation : Type 0 where
  select : Bytes → Bool → Tag → Operation
  list : Bytes → Bytes → Tag → Operation
  fetch : SelectedState → Bool → SequenceSet → FetchItems → Tag → Operation
  create : Bytes → Tag → Operation

-- The tag and the name that `into_operation` puts into the queue.
abbrev pub operation_tag : Operation → Tag
operation_tag (select m r tag) = tag
operation_tag (list a b tag) = tag
operation_tag (fetch s u set items tag) = tag
operation_tag (create m tag) = tag

abbrev pub operation_name : Operation → CommandName
operation_name (select m r tag) = CommandName.select
operation_name (list a b tag) = CommandName.list
operation_name (fetch s u set items tag) = CommandName.fetch
operation_name (create m tag) = CommandName.create

-- `into_operation` of each command, without the queue, with the request that `From` makes of it.
abbrev pub of_select : Bytes → Tag → Operation
of_select mailbox tag = Operation.select mailbox false tag

abbrev pub of_examine : Bytes → Tag → Operation
of_examine mailbox tag = Operation.select mailbox true tag

abbrev pub of_list : Bytes → Bytes → Tag → Operation
of_list reference mailbox tag = Operation.list reference mailbox tag

abbrev pub of_fetch : SelectedState → Bool → SequenceSet → FetchItems → Tag → Operation
of_fetch chosen is_uid set wanted tag = Operation.fetch chosen is_uid set wanted tag

module _ (b : Bitflags attribute_flags) where
  pub record SelectResult : Type 0 where
    pub flags : List Flag
    pub exists : ℕ
    pub uid_validity : ℕ
    pub next_uid : Uid
    pub mailbox : ListItem b
    pub read_only : Bool

  pub data OpResponse : Type 0 where
    select : SelectResult → OpResponse
    list : List (ListItem b) → OpResponse
    fetch create : OpResponse

  -- `Result<Response, StatusResponse>`.
  pub data OpResult : Type 0 where
    done : OpResponse → OpResult
    failed : StatusResponse → OpResult

  -- `into_tagged_response` of the two responses.
  unfoldable pub select_to_string : SelectResult → Tag → Bytes
  unfolding select_response
  select_to_string r tag = select_response b (record {
    flags = r.flags;
    exists = r.exists;
    uid_validity = r.uid_validity;
    next_uid = r.next_uid;
    mailbox = r.mailbox;
    tag = tag;
    read_only = r.read_only;
  })

  unfoldable pub list_to_string : List (ListItem b) → Tag → Bytes
  unfolding list_response tagged_to_string
  list_to_string items tag =
      list_response b items ++ tagged_to_string (with_tag (respond_ok (codes "LIST completed")) tag)

  -- `into_tagged_response`; none where it is `todo!()`.
  unfoldable pub into_tagged_response : OpResponse → Tag → Option Bytes
  unfolding select_to_string list_to_string
  into_tagged_response (OpResponse.select r) tag = some (select_to_string r tag)
  into_tagged_response (OpResponse.list items) tag = some (list_to_string items tag)
  into_tagged_response OpResponse.fetch tag = none
  into_tagged_response OpResponse.create tag = none
