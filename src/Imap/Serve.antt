-- ===== src/Imap/Serve.antt =====
-- src/main.rs, `handle_imap`: a session and the operations that it has handed out, whose futures run
-- beside it. One turn of the loop is one `select!`, whose branches are polled in any order: the branch
-- that is ready first is taken and the other's future is dropped.
pub mod Tracked
pub mod Served
pub mod Dropped
pub mod Anyone
use brev.Base.{ℕ, ◌<◌, ◌≡◌, Bool, false, Option, none, some, List, [], ◌∷◌, ◌++◌, length}
use brev.Io.{World, IoError, Outcome, returned, failed, stalled, panicked}
use brev.Imap.Queue.{delivered}
use brev.Imap.Ops.{Operation}
use brev.Imap.Operations.{handle_operation}
use brev.Imap.Session.{Environment, not_authenticated, Payload, ImapSession}
use brev.Imap.Session.Loop.{next_op}

-- The bound of the channel in crates/imap/src/server/queue.rs.
abbrev pub capacity : ℕ
capacity = 10

-- `FuturesUnordered` lets any of its futures complete; the other ones stay.
pub data Takes (op : Operation) : List Operation → List Operation → Type 0 where
  first : {rest : List Operation} → Takes op (op ∷ rest) rest
  later :
      {x : Operation} {rest left : List Operation}
      → Takes op rest left
      → Takes op (x ∷ rest) (x ∷ left)

module _ (e : Environment) where
  -- `Session::new`, on whether TLS is configured.
  unfoldable pub new_session : World → Bool → ImapSession e
  new_session stream tls = record {
    connection = stream;
    state = not_authenticated;
    queue = record { commands = []; rx = [] };
    greeted = false;
    tls = tls;
  }

  -- `Channel::send` on a channel with room.
  unfoldable pub send : Payload e → ImapSession e → ImapSession e
  send (tag, res) s = record s {
    queue = record { commands = s.queue.commands; rx = s.queue.rx ++ delivered tag res ∷ [] };
  }

  pub record Server : Type 0 where
    pub session : ImapSession e
    pub futures : List Operation

  -- The future of an operation completes, with what it sends.
  pub record Completes (fs : List Operation) (p : Payload e) (left : List Operation) : Type 0 where
    pub op : Operation
    pub takes : Takes op fs left
    pub gives : handle_operation e.attributes op ≡ some p

  -- One turn of the loop.
  pub data Step (s : Server) : Server → Type 0 where
    -- `next_op` returns an operation.
    handed :
        {op : Operation} {t : ImapSession e}
        → next_op e s.session ≡ (returned (some op), t)
        → Step s (record { session = t; futures = op ∷ s.futures })
    -- A future completes before `next_op` is polled.
    served :
        {p : Payload e} {left : List Operation}
        → Completes s.futures p left
        → length s.session.queue.rx < capacity
        → Step s (record { session = send p s.session; futures = left })
    -- A future completes while `next_op` waits. What `next_op` has done to the session stays done; what
    -- it holds itself is lost.
    dropped :
        {p : Payload e} {left : List Operation} {t : ImapSession e}
        → next_op e s.session ≡ (stalled, t)
        → Completes s.futures p left
        → length t.queue.rx < capacity
        → Step s (record { session = send p t; futures = left })
    -- `next_op` returns none, which disables its branch, and a future completes.
    disabled :
        {p : Payload e} {left : List Operation} {t : ImapSession e}
        → next_op e s.session ≡ (returned none, t)
        → Completes s.futures p left
        → length t.queue.rx < capacity
        → Step s (record { session = send p t; futures = left })

  -- How the loop ends.
  pub data Ends (s : Server) : Outcome (Unit {0}) → Type 0 where
    -- The `else` branch: no branch is left.
    finished :
        {t : ImapSession e}
        → next_op e s.session ≡ (returned none, t)
        → s.futures ≡ []
        → Ends s (returned tt)
    broken :
        {z : IoError} {t : ImapSession e} → next_op e s.session ≡ (failed z, t) → Ends s (failed z)
    crashed : {t : ImapSession e} → next_op e s.session ≡ (panicked, t) → Ends s panicked
    -- The future of an operation that is `todo!()`.
    unwritten :
        {op : Operation} {left : List Operation}
        → Takes op s.futures left
        → handle_operation e.attributes op ≡ none
        → Ends s panicked

  unfoldable pub start : World → Bool → Server
  unfolding new_session
  start stream tls = record { session = new_session stream tls; futures = [] }

  -- The states of a server on the connection.
  pub data Reach (stream : World) (tls : Bool) : Server → Type 0 where
    starts : Reach stream tls (start stream tls)
    then_step : {s t : Server} → Reach stream tls s → Step s t → Reach stream tls t
