-- ===== src/Listener.antt =====
-- src/listener.rs: a listener on two sockets, and the loops of src/main.rs that take connections from
-- it. Sockets and handshakes are tokio's and rustls'; each round is given what they do in it.
pub mod Rounds
pub mod Idle
pub mod Serving
use brev.Base.{ℕ, Bool, true, false, Option, none, some, List, [], ◌∷◌}
use brev.Io.{IoError}
use brev.Line.Encryption.{Handshake, secured, refused, waits, Tls, MaybeTls, from_plain, from_tls}

-- How far an `accept` has come: a stream with its peer's address, an error, or nothing yet.
pub data Accepting (S : Type 0) : Type 0 where
  accepted : S → ℕ → Accepting S
  broken : IoError → Accepting S
  pending : Accepting S

module _ (t : Tls) where
  open t use {Plain, Secure, Config}

  -- `MultiListener`, without its sockets.
  pub record MultiListener : Type 0 where
    pub tls : Option Config

  -- One call of `accept`: what it finds at the two sockets, and the branch that is polled first.
  pub record Round : Type 0 where
    pub plain_first : Bool
    pub at_plain : Accepting Plain
    pub at_tls : Accepting Plain

  -- `TlsAcceptor::accept`; of a failed handshake only the error is left.
  abbrev pub shake : ℕ → Handshake Plain Secure → Accepting Secure
  shake addr (secured s) = accepted s addr
  shake addr (refused err s) = broken err
  shake addr waits = pending

  abbrev pub on_socket : Config → Accepting Plain → Accepting Secure
  on_socket config (accepted s addr) = shake addr (t.upgrade s config)
  on_socket config (broken err) = broken err
  on_socket config pending = pending

  unfoldable pub accept_tls : MultiListener → Accepting Plain → Accepting Secure
  accept_tls l at_tls = elim l.tls [ none ↦ pending | some config ↦ on_socket config at_tls ]

  abbrev pub plain_branch : Accepting Plain → Accepting (MaybeTls t)
  plain_branch (accepted s addr) = accepted (from_plain t s) addr
  plain_branch (broken err) = broken err
  plain_branch pending = pending

  abbrev pub tls_branch : Accepting Secure → Accepting (MaybeTls t)
  tls_branch (accepted s addr) = accepted (from_tls t s) addr
  tls_branch (broken err) = broken err
  tls_branch pending = pending

  -- `select!`: the first branch that is ready.
  abbrev pub or_pending : {S : Type 0} → Accepting S → Accepting S → Accepting S
  or_pending pending later = later
  or_pending first later = first

  unfoldable pub accept : MultiListener → Round → Accepting (MaybeTls t)
  unfolding accept_tls
  accept l r =
      let plain = plain_branch r.at_plain in
      let tls = tls_branch (accept_tls l r.at_tls) in
      elim r.plain_first [ true ↦ or_pending plain tls | false ↦ or_pending tls plain ]

  -- The loops of `imap` and `smtp`: the streams for which a session is spawned, and the error that
  -- `?` returns; none while the loop waits.
  pub record Served : Type 0 where
    pub spawned : List (MaybeTls t)
    pub stopped : Option IoError

  abbrev pub spawn : MaybeTls t → Served → Served
  spawn s rest = record { spawned = s ∷ rest.spawned; stopped = rest.stopped }

  abbrev pub on_accept : Accepting (MaybeTls t) → Served → Served
  on_accept (accepted s addr) rest = spawn s rest
  on_accept (broken err) rest = record { spawned = []; stopped = some err }
  on_accept pending rest = record { spawned = []; stopped = none }

  unfoldable pub serve : MultiListener → List Round → Served
  unfolding accept
  serve l [] = record { spawned = []; stopped = none }
  serve l (r ∷ rounds) = let rest = serve l rounds in on_accept (accept l r) rest
