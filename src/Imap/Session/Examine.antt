-- ===== src/Imap/Session/Examine.antt =====
-- EXAMINE of a client who is not authenticated.
use brev.Base.{◌≡◌, refl, true, some, List, [], ◌∷◌, Bytes, same_iff}
use brev.Io.{returned, panicked}
use brev.Imap.Response.{Tag}
use brev.Imap.Command.{CommandName, Command}
use brev.Imap.Queue.{
  put_command, remove_command, Delivery, delivered, known, ready_from, ready, insert,
}
use brev.Imap.Ops.{Operation, OpResponse, OpResult, SelectResult, done}
use brev.Imap.Session.{Environment, not_authenticated, ImapSession, on_queue}
use brev.Imap.Session.Loop.{
  consume_select, consume_ready, on_ready, consume_all_within, next_cmd, hand_out, handle,
}

module _ (e : Environment) where
  abbrev R : Type 0
  R = OpResult e.attributes

  -- The session with one result in the channel, and others behind it.
  abbrev pub answered : Tag → R → List (Delivery R) → ImapSession e → ImapSession e
  answered tag r rest s = record s {
    queue = record { commands = s.queue.commands; rx = delivered tag r ∷ rest };
  }

  pub remove_command_self :
      (tag : Tag) (name : CommandName) → remove_command tag ((tag, name) ∷ []) ≡ some []
  unfolding remove_command
  remove_command_self tag name = rw ((same_iff tag tag).1 refl) refl

  -- Before a client is authenticated, EXAMINE is handed out as an operation without a check; once the
  -- result of that operation has arrived, the next command is not read: the session panics.
  pub examine_panics :
      (tag : Tag) (mailbox : Bytes) (r : SelectResult e.attributes) (rest : List (Delivery R))
      (s : ImapSession e)
      → s.state ≡ not_authenticated
      → s.queue.commands ≡ []
      → ((handle e tag (Command.examine mailbox) s).0
          ≡ returned (some (Operation.select mailbox true tag)))
        × ((next_cmd e (
              answered tag
                (done (OpResponse.select r))
                rest
                (handle e tag (Command.examine mailbox) s).1)).0
            ≡ panicked)
  unfolding handle hand_out insert put_command next_cmd consume_all_within on_queue ready ready_from
      known on_ready consume_ready consume_select
  examine_panics tag mailbox r rest s h k =
      (refl, rw (k, remove_command_self tag CommandName.select, h) refl)
