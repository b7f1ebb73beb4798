-- ===== src/Imap/Serve/Dropped.antt =====
-- A command that the client sends while another is in progress.
use brev.Base.{◌≡◌, refl, Bool, true, false, some, List, [], ◌∷◌, arith, ℕ, Bytes, trim_line}
use brev.Io.{World, Incoming, chunk, returned, stalled, read_until, receive_from}
use brev.Line.{read_line, line_of}
use brev.Imap.Response.{Tag}
use brev.Imap.Command.{CommandName, TaggedCommand, tagged}
use brev.Imap.Command.Parse.{tagged_try_from}
use brev.Imap.Queue.{ready, ready_from, wait, wait_from}
use brev.Imap.Ops.{Operation}
use brev.Imap.Reader.{read_tagged, read_tagged_within, on_imap_line, on_tagged}
use brev.Imap.Session.{Environment, Payload, ImapSession, on_wire, on_queue}
use brev.Imap.Session.Loop.{
  on_ready, consume_all_within, wait_on, wait_all_within, on_read, next_cmd, is_logout, turn,
  loop_within, greet_once, next_op,
}
use brev.Imap.Serve.{send, Server, Completes, Step, dropped}

module _ (e : Environment) where
  -- One command is in progress, and its result has not arrived.
  pub record IsBusy (s : ImapSession e) : Type 0 where
    pub tag : Tag
    pub command : CommandName
    pub busy : s.queue ≡ record { commands = (tag, command) ∷ []; rx = [] }
    pub greets : s.greeted ≡ true
    pub stays : is_logout e s.state ≡ false

  -- With a command in progress whose result has not arrived, `next_op` reads the next command and
  -- waits.
  next_op-busy :
      (c : TaggedCommand e.caps e.items) (w : World) (s : ImapSession e)
      → IsBusy s
      → read_tagged e.caps e.items e.nom s.connection ≡ (returned (some c), w)
      → next_op e s ≡ (stalled, record s { connection = w })
  unfolding next_op greet_once loop_within turn next_cmd consume_all_within on_queue ready
      ready_from on_ready on_wire on_read wait_all_within wait_on wait wait_from
  next_op-busy c w s b h = rw (b.greets, b.stays, b.busy, h) refl

  -- A line that is a command is read, and nothing is written for it.
  read_tagged-line :
      (b : ℕ) (bs : Bytes) (more : Bool) (rest : List Incoming) (c : TaggedCommand e.caps e.items)
      (w : World)
      → w.incoming ≡ chunk (b ∷ bs) more ∷ rest
      → tagged_try_from e.caps e.items e.nom (trim_line (b ∷ bs)) ≡ tagged c
      → read_tagged e.caps e.items e.nom w
        ≡ (returned (some c), record w { incoming = rest; buffered = more })
  unfolding read_tagged read_tagged_within read_line read_until receive_from line_of on_imap_line
      on_tagged
  read_tagged-line b bs more rest c w h k = rw (h, k) refl

  -- While a command is in progress whose operation runs, and `next_op` is polled before the future of
  -- the operation completes: a line that the client sends next and that is a command is read by
  -- `next_op`, which then waits; the future completes, and the server goes on with the line consumed,
  -- nothing written for it, no command of it in the queue and no operation of it among the futures.
  pub pipelined_is_lost :
      (b : ℕ) (bs : Bytes) (more : Bool) (rest : List Incoming) (c : TaggedCommand e.caps e.items)
      (p : Payload e) (left : List Operation) (s : Server e)
      → IsBusy s.session
      → Completes e s.futures p left
      → s.session.connection.incoming ≡ chunk (b ∷ bs) more ∷ rest
      → tagged_try_from e.caps e.items e.nom (trim_line (b ∷ bs)) ≡ tagged c
      → (next_op e s.session ≡ (
        stalled,
        record s.session {
          connection = record s.session.connection { incoming = rest; buffered = more };
        },
      ))
        × Step e s (record {
          session = send e p (record s.session {
            connection = record s.session.connection { incoming = rest; buffered = more };
          });
          futures = left;
        })
  pipelined_is_lost b bs more rest c p left s busy done h k =
      let waits = next_op-busy c _ s.session busy (read_tagged-line b bs more rest c _ h k) in
      (waits, dropped waits done (rw busy.busy (omega arith)))
