-- ===== src/Listener/Rounds.antt =====
-- The connections for which a session is spawned.
use brev.Base.{ℕ, ◌≡◌, refl, subst, Bool-cases, inl, inr, Option, none, some}
use brev.Line.Encryption.{Handshake, secured, refused, waits, Tls, MaybeTls, plain, tls}
use brev.Listener.{
  Accepting, accepted, broken, pending, MultiListener, Round, shake, on_socket, accept_tls,
  plain_branch, tls_branch, or_pending, accept,
}

module _ (t : Tls) where
  -- The stream came from one of the sockets: as it is from the first, and through a handshake under
  -- the listener's configuration from the second.
  pub data CameFrom (l : MultiListener t) (r : Round t) : MaybeTls t → Type 0 where
    unencrypted : {s : t.Plain} {addr : ℕ} → r.at_plain ≡ accepted s addr → CameFrom l r (plain s)
    encrypted :
        {s : t.Plain} {x : t.Secure} {addr : ℕ} {config : t.Config}
        → l.tls ≡ some config
        → r.at_tls ≡ accepted s addr
        → t.upgrade s config ≡ secured x
        → CameFrom l r (tls x)

  plain-CameFrom :
      (l : MultiListener t) (r : Round t) (s : MaybeTls t) (addr : ℕ) (a : Accepting t.Plain)
      → r.at_plain ≡ a
      → plain_branch t a ≡ accepted s addr
      → CameFrom l r s
  plain-CameFrom l r s addr (accepted x addr') h k =
      let e : plain x ≡ s = cc in subst (CameFrom l r) e (unencrypted h)
  plain-CameFrom l r s addr (broken err) h k = cc
  plain-CameFrom l r s addr pending h k = cc

  shake-CameFrom :
      (l : MultiListener t) (r : Round t) (s : MaybeTls t) (addr addr' : ℕ) (config : t.Config)
      (x : t.Plain) (hs : Handshake t.Plain t.Secure)
      → l.tls ≡ some config
      → r.at_tls ≡ accepted x addr'
      → t.upgrade x config ≡ hs
      → tls_branch t (shake t addr' hs) ≡ accepted s addr
      → CameFrom l r s
  shake-CameFrom l r s addr addr' config x (secured y) c h u k =
      let e : tls y ≡ s = cc in subst (CameFrom l r) e (encrypted c h u)
  shake-CameFrom l r s addr addr' config x (refused err z) c h u k = cc
  shake-CameFrom l r s addr addr' config x waits c h u k = cc

  socket-CameFrom :
      (l : MultiListener t) (r : Round t) (s : MaybeTls t) (addr : ℕ) (config : t.Config)
      (a : Accepting t.Plain)
      → l.tls ≡ some config
      → r.at_tls ≡ a
      → tls_branch t (on_socket t config a) ≡ accepted s addr
      → CameFrom l r s
  socket-CameFrom l r s addr config (accepted x addr') c h k =
      shake-CameFrom l r s addr addr' config x (t.upgrade x config) c h refl k
  socket-CameFrom l r s addr config (broken err) c h k = cc
  socket-CameFrom l r s addr config pending c h k = cc

  none_pending :
      (l : MultiListener t) (r : Round t) (s : MaybeTls t) (addr : ℕ)
      → ◌≡◌ {A = Accepting (MaybeTls t)} pending (accepted s addr)
      → CameFrom l r s
  none_pending l r s addr h = cc

  tls-CameFrom :
      (l : MultiListener t) (r : Round t) (s : MaybeTls t) (addr : ℕ) (o : Option t.Config)
      → l.tls ≡ o
      → tls_branch t (accept_tls t (record { tls = o }) r.at_tls) ≡ accepted s addr
      → CameFrom l r s
  unfolding accept_tls
  tls-CameFrom l r s addr none h k = none_pending l r s addr k
  tls-CameFrom l r s addr (some config) h k = socket-CameFrom l r s addr config r.at_tls h refl k

  either :
      (l : MultiListener t) (r : Round t) (s : MaybeTls t) (addr : ℕ) (a b : Accepting (MaybeTls t))
      → (a ≡ accepted s addr → CameFrom l r s)
      → (b ≡ accepted s addr → CameFrom l r s)
      → or_pending t a b ≡ accepted s addr
      → CameFrom l r s
  either l r s addr (accepted x addr') b f g h = f h
  either l r s addr (broken err) b f g h = f h
  either l r s addr pending b f g h = g h

  -- A stream that `accept` gives is the one that was accepted at the first socket, or the one that a
  -- handshake under the listener's configuration has made of one accepted at the second.
  pub accept-CameFrom :
      (l : MultiListener t) (r : Round t) (s : MaybeTls t) (addr : ℕ)
      → accept t l r ≡ accepted s addr
      → CameFrom l r s
  unfolding accept
  accept-CameFrom l r s addr h = elim (Bool-cases r.plain_first) [
    | inl e ↦
        either l r s addr _ _ (plain-CameFrom l r s addr r.at_plain refl)
          (tls-CameFrom l r s addr l.tls refl) (rw e at h)
    | inr e ↦
        either l r s addr _ _ (tls-CameFrom l r s addr l.tls refl)
          (plain-CameFrom l r s addr r.at_plain refl) (rw e at h)
  ]
