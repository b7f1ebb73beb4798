-- ===== src/Line/Encryption.antt =====
-- crates/line/src/stream.rs: a stream that is encrypted or not. What carries the bytes, tokio's and
-- rustls' streams, is a parameter.
pub mod Upgrades
use brev.Base.{ℕ, ◌≡◌, Bool, true, false, Option, none, some, List, [], ◌∷◌, Bytes}
use brev.Io.{IoError}

-- `Poll<io::Result<A>>`.
pub data Poll (A : Type 0) : Type 0 where
  ready : A → Poll A
  broken : IoError → Poll A
  pending : Poll A

-- `AsyncRead` and `AsyncWrite`: each call changes the stream. A read says what it has put into the
-- buffer, whose room it is given; a write says how much it has taken.
pub record Endpoint (S : Type 0) : Type 0 where
  pub poll_read : ℕ → S → Poll Bytes × S
  pub poll_write : Bytes → S → Poll ℕ × S
  pub poll_flush : S → Poll (Unit {0}) × S
  pub poll_shutdown : S → Poll (Unit {0}) × S

-- `Tls::Upgrade`: how a handshake ends, if it does. A failed one gives the plain stream back.
pub data Handshake (Io T : Type 0) : Type 0 where
  secured : T → Handshake Io T
  refused : IoError → Io → Handshake Io T
  waits : Handshake Io T

-- `Tls`, with the streams on both sides.
pub record Tls : Type 1 where
  pub Plain : Type 0
  pub Secure : Type 0
  pub Config : Type 0
  pub upgrade : Plain → Config → Handshake Plain Secure
  pub plain_side : Endpoint Plain
  pub secure_side : Endpoint Secure

module _ (t : Tls) where
  open t use {Plain, Secure, Config, plain_side, secure_side}

  -- `Inner`, which is all of `MaybeTls`.
  pub data MaybeTls : Type 0 where
    plain : Plain → MaybeTls
    tls : Secure → MaybeTls
    empty : MaybeTls

  abbrev pub from_plain : Plain → MaybeTls
  from_plain = plain

  abbrev pub from_tls : Secure → MaybeTls
  from_tls = tls

  abbrev pub is_plain : MaybeTls → Bool
  is_plain (plain s) = true
  is_plain _ = false

  abbrev pub is_tls : MaybeTls → Bool
  is_tls (tls s) = true
  is_tls _ = false

  -- How the function `upgrade` ends: with the stream and the error, if there is one; waiting; or in
  -- `unreachable!()`.
  pub data Upgraded : Type 0 where
    finished : MaybeTls → Option IoError → Upgraded
    waiting unreachable : Upgraded

  abbrev pub on_handshake : Handshake Plain Secure → Upgraded
  on_handshake (secured s) = finished (from_tls s) none
  on_handshake (refused err s) = finished (from_plain s) (some err)
  on_handshake waits = waiting

  unfoldable pub upgrade_inner : MaybeTls → Config → Upgraded
  upgrade_inner (plain s) config = on_handshake (t.upgrade s config)
  upgrade_inner (tls s) config = finished (from_tls s) none
  upgrade_inner empty config = unreachable

  -- A call on the stream: its result and the stream afterwards, or `unreachable!()`.
  pub data Called (A : Type 0) : Type 0 where
    called : Poll A → MaybeTls → Called A
    panics : Called A

  -- `*self = stream; result`, behind `mem::replace`. While the handshake waits, and after a caller has
  -- dropped it, the stream is what `mem::replace` has left.
  abbrev pub put_back : MaybeTls → Upgraded → Called (Unit {0})
  put_back left (finished s none) = called (ready tt) s
  put_back left (finished s (some err)) = called (broken err) s
  put_back left waiting = called pending left
  put_back left unreachable = panics

  unfoldable pub upgrade : Config → MaybeTls → Called (Unit {0})
  unfolding upgrade_inner
  upgrade config s = put_back empty (upgrade_inner s config)

  -- The match of the four poll functions.
  abbrev pub on_plain : {A : Type 0} → Poll A × Plain → Called A
  on_plain (r, s) = called r (plain s)

  abbrev pub on_tls : {A : Type 0} → Poll A × Secure → Called A
  on_tls (r, s) = called r (tls s)

  unfoldable pub poll_read : ℕ → MaybeTls → Called Bytes
  poll_read room (plain s) = on_plain (plain_side.poll_read room s)
  poll_read room (tls s) = on_tls (secure_side.poll_read room s)
  poll_read room empty = panics

  unfoldable pub poll_write : Bytes → MaybeTls → Called ℕ
  poll_write bs (plain s) = on_plain (plain_side.poll_write bs s)
  poll_write bs (tls s) = on_tls (secure_side.poll_write bs s)
  poll_write bs empty = panics

  unfoldable pub poll_flush : MaybeTls → Called (Unit {0})
  poll_flush (plain s) = on_plain (plain_side.poll_flush s)
  poll_flush (tls s) = on_tls (secure_side.poll_flush s)
  poll_flush empty = panics

  unfoldable pub poll_shutdown : MaybeTls → Called (Unit {0})
  poll_shutdown (plain s) = on_plain (plain_side.poll_shutdown s)
  poll_shutdown (tls s) = on_tls (secure_side.poll_shutdown s)
  poll_shutdown empty = panics
