-- ===== src/Listener/Serving.antt =====
-- The loops that take connections from a listener: what they serve, and what stops them.
use brev.Base.{ℕ, ◌≡◌, refl, Bool, true, false, some, List, [], ◌∷◌, ◌++◌}
use brev.Io.{IoError}
use brev.Line.Encryption.{refused, Tls, MaybeTls}
use brev.Listener.{
  Accepting, accepted, broken, pending, MultiListener, Round, accept_tls, accept, Served, on_accept,
  serve,
}
use brev.Listener.Rounds.{CameFrom, accept-CameFrom}
use brev.Listener.Idle.{WithoutSession, accept-WithoutSession}

module _ (t : Tls) where
  -- Round by round, each stream came from its round; the list ends with the rounds, or at a round
  -- without a session.
  pub data AllFrom (l : MultiListener t) : List (Round t) → List (MaybeTls t) → Type 0 where
    done : AllFrom l [] []
    stops : {r : Round t} {rs : List (Round t)} → WithoutSession t l r → AllFrom l (r ∷ rs) []
    next :
        {r : Round t} {rs : List (Round t)} {s : MaybeTls t} {ss : List (MaybeTls t)}
        → CameFrom t l r s
        → AllFrom l rs ss
        → AllFrom l (r ∷ rs) (s ∷ ss)

  on_accept-AllFrom :
      (l : MultiListener t) (r : Round t) (rs : List (Round t)) (a : Accepting (MaybeTls t))
      (rest : Served t)
      → accept t l r ≡ a
      → AllFrom l rs rest.spawned
      → AllFrom l (r ∷ rs) (on_accept t a rest).spawned
  on_accept-AllFrom l r rs (accepted s addr) rest h k = next (accept-CameFrom t l r s addr h) k
  on_accept-AllFrom l r rs (broken err) rest h k =
      stops (accept-WithoutSession t l r (λ s addr e. cc (h, e)))
  on_accept-AllFrom l r rs pending rest h k =
      stops (accept-WithoutSession t l r (λ s addr e. cc (h, e)))

  -- Sessions are spawned round by round, in their order and one for each: a plain one for a connection
  -- to the first socket, an encrypted one for a connection to the second whose handshake has
  -- succeeded. They end only with the rounds, or at a round in which a socket or a handshake fails, or
  -- in which nobody connects to the first socket and nobody gets through a handshake at the second.
  pub serve-AllFrom :
      (l : MultiListener t) (rounds : List (Round t)) → AllFrom l rounds (serve t l rounds).spawned
  unfolding serve
  serve-AllFrom l [] = done
  serve-AllFrom l (r ∷ rounds) =
      on_accept-AllFrom l r rounds (accept t l r) (serve t l rounds) refl (serve-AllFrom l rounds)

  -- Every one of the rounds gives a stream.
  pub data Accepts (l : MultiListener t) : List (Round t) → List (MaybeTls t) → Type 0 where
    nothing : Accepts l [] []
    and_then :
        {r : Round t} {rs : List (Round t)} {s : MaybeTls t} {ss : List (MaybeTls t)} {addr : ℕ}
        → accept t l r ≡ accepted s addr
        → Accepts l rs ss
        → Accepts l (r ∷ rs) (s ∷ ss)

  -- A client of the second socket whose handshake fails, in a round in which nobody connects to the
  -- first.
  pub record FailsHandshake (l : MultiListener t) (r : Round t) (err : IoError) : Type 0 where
    pub config : t.Config
    pub peer : t.Plain
    pub addr : ℕ
    pub given_back : t.Plain
    pub configured : l.tls ≡ some config
    pub nobody : r.at_plain ≡ pending
    pub connects : r.at_tls ≡ accepted peer addr
    pub fails : t.upgrade peer config ≡ refused err given_back

  accept-FailsHandshake :
      (l : MultiListener t) (r : Round t) (err : IoError)
      → FailsHandshake l r err
      → accept t l r ≡ broken err
  unfolding accept accept_tls
  accept-FailsHandshake l r err f = by r.plain_first
    where
      by :
          (b : Bool)
          → accept t l (record { plain_first = b; at_plain = r.at_plain; at_tls = r.at_tls })
            ≡ broken err
      by true = rw (f.nobody, f.connects, f.configured, f.fails) refl
      by false = rw (f.nobody, f.connects, f.configured, f.fails) refl

  -- Once a client fails its TLS handshake, the loop stops with the error of that handshake: whoever
  -- connects later is not served, whatever was served before.
  pub failed_handshake_stops :
      (l : MultiListener t) (before later : List (Round t)) (ss : List (MaybeTls t)) (r : Round t)
      (err : IoError)
      → Accepts l before ss
      → FailsHandshake l r err
      → serve t l (before ++ r ∷ later) ≡ record { spawned = ss; stopped = some err }
  unfolding serve
  failed_handshake_stops l _ later _ r err nothing f = rw (accept-FailsHandshake l r err f) refl
  failed_handshake_stops l _ later _ r err (and_then {rs = rs} {ss = ss} h k) f =
      rw (h, failed_handshake_stops l rs later ss r err k f) refl
