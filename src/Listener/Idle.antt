-- ===== src/Listener/Idle.antt =====
-- The rounds of a listener for which no session is spawned.
use brev.Base.{ℕ, ◌≡◌, ◌≢◌, refl, Bool, true, false, Option, none, some}
use brev.Io.{IoError}
use brev.Line.Encryption.{Handshake, secured, refused, waits, Tls, MaybeTls}
use brev.Listener.{
  Accepting, accepted, broken, pending, MultiListener, Round, shake, on_socket, accept_tls,
  plain_branch, tls_branch, or_pending, accept,
}

module _ (t : Tls) where
  -- Nobody gets through at the second socket, and nothing fails there.
  pub data Quiet (l : MultiListener t) (r : Round t) : Type 0 where
    off : l.tls ≡ none → Quiet l r
    nobody : r.at_tls ≡ pending → Quiet l r
    shaking :
        {s : t.Plain} {addr : ℕ} {config : t.Config}
        → l.tls ≡ some config
        → r.at_tls ≡ accepted s addr
        → t.upgrade s config ≡ waits
        → Quiet l r

  -- The round has no stream for a session: a socket or a handshake fails, or nobody is there.
  pub data WithoutSession (l : MultiListener t) (r : Round t) : Type 0 where
    plain_fails : {err : IoError} → r.at_plain ≡ broken err → WithoutSession l r
    tls_fails :
        {config : t.Config} {err : IoError}
        → l.tls ≡ some config
        → r.at_tls ≡ broken err
        → WithoutSession l r
    handshake_fails :
        {s left : t.Plain} {addr : ℕ} {config : t.Config} {err : IoError}
        → l.tls ≡ some config
        → r.at_tls ≡ accepted s addr
        → t.upgrade s config ≡ refused err left
        → WithoutSession l r
    nobody_there : r.at_plain ≡ pending → Quiet l r → WithoutSession l r

  -- What comes of the second socket.
  abbrev FromTls : MultiListener t → Round t → Accepting (MaybeTls t) → Type 0
  FromTls l r (accepted s addr) = Unit
  FromTls l r (broken err) = WithoutSession l r
  FromTls l r pending = Quiet l r

  shake-FromTls :
      (l : MultiListener t) (r : Round t) (config : t.Config) (s : t.Plain) (addr : ℕ)
      (h : Handshake t.Plain t.Secure)
      → l.tls ≡ some config
      → r.at_tls ≡ accepted s addr
      → t.upgrade s config ≡ h
      → FromTls l r (tls_branch t (shake t addr h))
  shake-FromTls l r config s addr (secured x) c a h = tt
  shake-FromTls l r config s addr (refused err x) c a h = handshake_fails c a h
  shake-FromTls l r config s addr waits c a h = shaking c a h

  socket-FromTls :
      (l : MultiListener t) (r : Round t) (config : t.Config) (a : Accepting t.Plain)
      → l.tls ≡ some config
      → r.at_tls ≡ a
      → FromTls l r (tls_branch t (on_socket t config a))
  socket-FromTls l r config (accepted s addr) c h =
      shake-FromTls l r config s addr (t.upgrade s config) c h refl
  socket-FromTls l r config (broken err) c h = tls_fails c h
  socket-FromTls l r config pending c h = nobody h

  tls-FromTls :
      (l : MultiListener t) (r : Round t) (o : Option t.Config)
      → l.tls ≡ o
      → FromTls l r (tls_branch t (accept_tls t (record { tls = o }) r.at_tls))
  unfolding accept_tls
  tls-FromTls l r none h = off h
  tls-FromTls l r (some config) h = socket-FromTls l r config r.at_tls h refl

  -- No branch has a stream, in the order in which they are polled.
  both :
      (l : MultiListener t) (r : Round t) (b : Bool) (p : Accepting t.Plain)
      (q : Accepting (MaybeTls t))
      → r.at_plain ≡ p
      → FromTls l r q
      → ((s : MaybeTls t) (addr : ℕ)
          → elim b [
            | true ↦ or_pending t (plain_branch t p) q
            | false ↦ or_pending t q (plain_branch t p)
          ]
            ≢ accepted s addr)
      → WithoutSession l r
  both l r true (accepted s addr) q h f n = absurd (n _ _ refl)
  both l r true pending (accepted s addr) h f n = absurd (n _ _ refl)
  both l r true pending (broken err) h f n = f
  both l r true pending pending h f n = nobody_there h f
  both l r true (broken err) q h f n = plain_fails h
  both l r false p (accepted s addr) h f n = absurd (n _ _ refl)
  both l r false p (broken err) h f n = f
  both l r false (accepted s addr) pending h f n = absurd (n _ _ refl)
  both l r false (broken err) pending h f n = plain_fails h
  both l r false pending pending h f n = nobody_there h f

  -- Where `accept` gives no stream, the round has none.
  pub accept-WithoutSession :
      (l : MultiListener t) (r : Round t)
      → ((s : MaybeTls t) (addr : ℕ) → accept t l r ≢ accepted s addr)
      → WithoutSession l r
  unfolding accept
  accept-WithoutSession l r n =
      both l r r.plain_first r.at_plain (tls_branch t (accept_tls t l r.at_tls)) refl
        (tls-FromTls l r l.tls refl) n
