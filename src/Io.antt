-- ===== src/Io.antt =====
-- Asynchronous code over one connection. The environment decides what each read, write and TLS
-- handshake gives, so a run takes these answers from lists in the world, and leaves a trace of what
-- it has sent. tokio and rustls, which carry the calls out, are not part of the repository.
pub mod Laws
pub mod Settles
pub mod Finishes
use brev.Base.{ℕ, Bool, Option, none, some, List, [], ◌∷◌, ◌++◌, Bytes}

pub data IoError : Type 0 where
  unexpected_eof timed_out : IoError
  other : ℕ → IoError

-- How an `async fn` that returns `io::Result<A>` ends: with a value, with an error, never (it waits
-- for ever), or in a panic.
pub data Outcome {ℓ} (A : Type ℓ) : Type ℓ where
  returned : A → Outcome A
  failed : IoError → Outcome A
  stalled panicked : Outcome A

-- The answer to one `read_until`: the bytes with their delimiter, none at the end of the stream, and
-- whether the reader has bytes buffered behind them. `silence` is a read that is never answered.
pub data Incoming : Type 0 where
  chunk : Bytes → Bool → Incoming
  fault : IoError → Incoming
  silence : Incoming

-- The answer to one write, flush, shutdown or handshake. Past the end of the list all succeed.
pub data Answer : Type 0 where
  accepted : Answer
  refused : IoError → Answer
  ignored : Answer

pub data Sent : Type 0 where
  wrote : Bytes → Sent
  flushed closed secured : Sent

-- `MaybeTls`; its third variant, `Empty`, stands there only inside `upgrade`.
pub data Stream : Type 0 where
  plain tls : Stream

pub record World : Type 0 where
  pub incoming : List Incoming
  pub buffered : Bool
  pub answers : List Answer
  pub trace : List Sent
  pub stream : Stream

-- An action on an object that owns what it changes.
abbrev pub Async {ℓ} : Type 0 → Type ℓ → Type ℓ
Async S A = S → Outcome A × S

abbrev pub Io {ℓ} : Type ℓ → Type ℓ
Io A = Async World A

module _ {ℓ} {S : Type 0} {A : Type ℓ} where
  abbrev pub pure : A → Async S A
  pure a s = (returned a, s)

  abbrev pub fail : IoError → Async S A
  fail e s = (failed e, s)

  abbrev pub stall : Async S A
  stall s = (stalled, s)

  -- A failed assertion, `unreachable!()` or `todo!()`.
  abbrev pub panic : Async S A
  panic s = (panicked, s)

module _ {ℓ κ} {S : Type 0} {A : Type ℓ} {B : Type κ} where
  abbrev pub continue : Outcome A → (A → Async S B) → S → Outcome B × S
  continue (returned a) f s = f a s
  continue (failed e) f s = (failed e, s)
  continue stalled f s = (stalled, s)
  continue panicked f s = (panicked, s)

  -- `.await?` and what follows.
  infixl 5 ◌>>=◌ ◌>>◌
  abbrev pub ◌>>=◌ : Async S A → (A → Async S B) → Async S B
  ◌>>=◌ m f s = continue (m s).0 f (m s).1

  abbrev pub ◌>>◌ : Async S A → Async S B → Async S B
  m >> k = m >>= λ _. k

unfoldable pub answer : Sent → Answer → List Answer → World → Outcome (Unit {0}) × World
answer s accepted rest w = (returned tt, record w { answers = rest; trace = w.trace ++ s ∷ [] })
answer s (refused e) rest w = (failed e, record w { answers = rest })
answer s ignored rest w = (stalled, record w { answers = rest })

unfoldable pub perform_on : List Answer → Sent → Io (Unit {0})
unfolding answer
perform_on [] s w = answer s accepted [] w
perform_on (a ∷ rest) s w = answer s a rest w

-- A call that the environment answers.
unfoldable pub perform : Sent → Io (Unit {0})
unfolding perform_on
perform s w = perform_on w.answers s w

unfoldable pub receive_from : List Incoming → Io Bytes
receive_from [] w = (stalled, w)
receive_from (chunk bs more ∷ rest) w = (returned bs, record w { incoming = rest; buffered = more })
receive_from (fault e ∷ rest) w = (failed e, record w { incoming = rest })
receive_from (silence ∷ rest) w = (stalled, record w { incoming = rest })

-- `AsyncBufReadExt::read_until`, under the caller's limit on its length.
unfoldable pub read_until : Io Bytes
unfolding receive_from
read_until w = receive_from w.incoming w
