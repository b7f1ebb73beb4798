-- ===== src/Imap/Operations/Served.antt =====
-- A session and its caller together: the result of an operation finds its command.
use brev.Base.{◌≡◌, refl, true, some, [], Bytes}
use brev.Io.{returned, perform, perform_on, answer}
use brev.Line.{write, flush, write_flush}
use brev.Imap.Response.{Tag}
use brev.Imap.Command.{CommandName, Command}
use brev.Imap.Queue.{put_command, known, ready_from, ready, insert}
use brev.Imap.Ops.{Operation, OpResult, done}
use brev.Imap.Operations.{list_operation, select_operation, handle_operation}
use brev.Imap.Session.{
  Environment, authenticated, selected, Payload, ImapSession, on_queue, on_wire, respond_with_tag,
}
use brev.Imap.Session.Loop.{
  consume_select, consume_ready, on_ready, consume_all_within, hand_out, handle,
}
use brev.Imap.Session.Examine.{answered, remove_command_self}

module _ (e : Environment) where
  -- The session with a result in the channel.
  abbrev pub with_result : Payload e → ImapSession e → ImapSession e
  with_result p s = answered e p.0 p.1 [] s

  ready-insert :
      (tag : Tag) (name : CommandName) (r : OpResult e.attributes) (s : ImapSession e)
      → s.queue.commands ≡ []
      → on_queue e (ready (OpResult e.attributes)) (
          with_result
            (tag, r)
            (record s { queue = insert (OpResult e.attributes) tag name s.queue }))
        ≡ (returned (some (tag, r)), record s { queue = record { commands = []; rx = [] } })
  unfolding on_queue ready ready_from known insert put_command
  ready-insert tag name r s h = rw (h, remove_command_self e tag name) refl

  -- Before, no command is in progress: the caller's result for an operation that the session has
  -- handed out bears the tag of the command in progress, so the session finds it in its queue, and
  -- afterwards no command is in progress.
  pub ready-handle_operation :
      (op : Operation) (p : Payload e) (s : ImapSession e)
      → s.queue.commands ≡ []
      → handle_operation e.attributes op ≡ some p
      → on_queue e (ready (OpResult e.attributes)) (with_result p (hand_out e op s).1)
        ≡ (returned (some p), record s { queue = record { commands = []; rx = [] } })
  unfolding handle_operation hand_out
  ready-handle_operation (Operation.fetch chosen is_uid set wanted tag) p s h k = cc
  ready-handle_operation (Operation.create mailbox tag) p s h k = cc
  ready-handle_operation (Operation.list reference mailbox tag) p s h k =
      let same_payload : (tag, done (list_operation e.attributes)) ≡ p = cc in
      rw (← same_payload) (ready-insert tag CommandName.list _ s h)
  ready-handle_operation (Operation.select mailbox read_only tag) p s h k =
      let same_payload : (tag, done (select_operation e.attributes mailbox read_only)) ≡ p = cc in
      rw (← same_payload) (ready-insert tag CommandName.select _ s h)

  -- EXAMINE of an authenticated client selects the mailbox, read-only and for that client: an
  -- operation is handed out, the caller has a result for it, and once that has arrived the session is
  -- in the selected state with no command in progress. No command was in progress before, and every
  -- write succeeds.
  pub examine_selects :
      (tag : Tag) (mailbox who : Bytes) (s : ImapSession e)
      → s.state ≡ authenticated who
      → s.queue.commands ≡ []
      → s.connection.answers ≡ []
      → (op : Operation) × (p : Payload e) × ((handle e tag (Command.examine mailbox) s).0
          ≡ returned (some op))
        × (handle_operation e.attributes op ≡ some p)
        × ((consume_all_within e 2 (with_result p (handle e tag (Command.examine mailbox) s).1)).0
            ≡ returned tt)
        × ((consume_all_within e 2
              (with_result p (handle e tag (Command.examine mailbox) s).1)).1.state
            ≡ selected (record { mailbox = mailbox; read_only = true; identity = who }))
        × ((consume_all_within e 2
              (with_result p (handle e tag (Command.examine mailbox) s).1)).1.queue.commands
            ≡ [])
  unfolding handle_operation select_operation handle hand_out insert put_command consume_all_within
      on_queue ready ready_from known on_ready consume_ready consume_select respond_with_tag on_wire
      write_flush write flush perform perform_on answer
  examine_selects tag mailbox who s h k a = (
    _,
    _,
    refl,
    refl,
    rw (k, remove_command_self e tag CommandName.select, h, a) refl,
    rw (k, remove_command_self e tag CommandName.select, h, a) refl,
    rw (k, remove_command_self e tag CommandName.select, h, a) refl,
  )
