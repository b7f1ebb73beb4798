-- ===== src/Line/Encryption/Upgrades.antt =====
-- Calls on a stream one after the other, and the stream that the sessions are modelled over.
use brev.Base.{ℕ, ◌≡◌, ◌≢◌, refl, ap, true, Option, none, some, List, [], ◌∷◌, Bytes}
use brev.Io.{
  World, Stream, Answer, Outcome, returned, failed, stalled, panicked, perform, perform_on, answer,
}
use brev.Line.{upgrade_stream}
use brev.Line.Encryption.{
  ready, broken, pending, Handshake, secured, refused, waits, Tls, MaybeTls, plain, tls, empty,
  is_tls, Called, called, panics, put_back, upgrade_inner, on_handshake, upgrade, poll_read,
  poll_write, poll_flush, poll_shutdown,
}

module _ (t : Tls) where
  abbrev M : Type 0
  M = MaybeTls t

  -- The calls that a user of the stream makes.
  pub data Call : Type 0 where
    read : ℕ → Call
    write : Bytes → Call
    flush shutdown : Call
    upgrades : t.Config → Call

  -- The stream behind a call; none is a panic.
  abbrev pub left_by : {A : Type 0} → Called t A → Option M
  left_by (called r s) = some s
  left_by panics = none

  unfoldable pub call : Call → M → Option M
  unfolding poll_read poll_write poll_flush poll_shutdown upgrade
  call (read room) s = left_by (poll_read t room s)
  call (write bs) s = left_by (poll_write t bs s)
  call flush s = left_by (poll_flush t s)
  call shutdown s = left_by (poll_shutdown t s)
  call (upgrades config) s = left_by (upgrade t config s)

  abbrev pub then_call : (M → Option M) → Option M → Option M
  then_call f none = none
  then_call f (some s) = f s

  unfoldable pub call_all : List Call → M → Option M
  unfolding call
  call_all [] s = some s
  call_all (c ∷ cs) s = then_call (call_all cs) (call c s)

  -- The stream is there.
  abbrev pub IsOpen : M → Type 0
  IsOpen empty = ⊥
  IsOpen _ = Unit

  -- The stream stays there, and encrypted if it was.
  pub record Stays (s s' : M) : Type 0 where
    pub open_still : IsOpen s'
    pub secure_still : is_tls t s ≡ true → is_tls t s' ≡ true

  Stays-trans : {a b c : M} → Stays a b → Stays b c → Stays a c
  Stays-trans p q = record {
    open_still = q.open_still;
    secure_still = λ h. q.secure_still (p.secure_still h);
  }

  upgrade-Stays :
      (config : t.Config) (s : t.Plain) (h : Handshake t.Plain t.Secure)
      → h ≢ waits
      → (s' : M) × (left_by (put_back t empty (on_handshake t h)) ≡ some s') × Stays (plain s) s'
  upgrade-Stays config s (secured x) k =
      (_, refl, record { open_still = tt; secure_still = λ z. refl })
  upgrade-Stays config s (refused err x) k =
      (_, refl, record { open_still = tt; secure_still = λ z. z })
  upgrade-Stays config s waits k = absurd (k refl)

  call-Stays :
      ((s : t.Plain) (config : t.Config) → t.upgrade s config ≢ waits)
      → (c : Call) (s : M) → IsOpen s
      → (s' : M) × (call c s ≡ some s') × Stays s s'
  unfolding call poll_read poll_write poll_flush poll_shutdown upgrade upgrade_inner
  call-Stays ends c empty h = absurd h
  call-Stays ends (read room) (plain s) h =
      (_, refl, record { open_still = tt; secure_still = λ z. z })
  call-Stays ends (read room) (tls s) h =
      (_, refl, record { open_still = tt; secure_still = λ z. z })
  call-Stays ends (write bs) (plain s) h =
      (_, refl, record { open_still = tt; secure_still = λ z. z })
  call-Stays ends (write bs) (tls s) h =
      (_, refl, record { open_still = tt; secure_still = λ z. z })
  call-Stays ends flush (plain s) h = (_, refl, record { open_still = tt; secure_still = λ z. z })
  call-Stays ends flush (tls s) h = (_, refl, record { open_still = tt; secure_still = λ z. z })
  call-Stays ends shutdown (plain s) h =
      (_, refl, record { open_still = tt; secure_still = λ z. z })
  call-Stays ends shutdown (tls s) h = (_, refl, record { open_still = tt; secure_still = λ z. z })
  call-Stays ends (upgrades config) (tls s) h =
      (_, refl, record { open_still = tt; secure_still = λ z. z })
  call-Stays ends (upgrades config) (plain s) h =
      upgrade-Stays config s (t.upgrade s config) (ends s config)

  -- While every handshake ends: whatever is called on an open stream, in whatever order, no call
  -- panics, the stream is open afterwards, and it is encrypted if it was encrypted before.
  pub call_all-Stays :
      ((s : t.Plain) (config : t.Config) → t.upgrade s config ≢ waits)
      → (cs : List Call) (s : M) → IsOpen s
      → (s' : M) × (call_all cs s ≡ some s') × Stays s s'
  unfolding call_all
  call_all-Stays ends [] s h = (s, refl, record { open_still = h; secure_still = λ z. z })
  call_all-Stays ends (c ∷ cs) s h =
      let (s1, e1, k1) = call-Stays ends c s h in
      let (s2, e2, k2) = call_all-Stays ends cs s1 k1.open_still in
      (s2, rw e1 e2, Stays-trans k1 k2)

  -- A handshake that a caller has dropped leaves a stream on which every call panics.
  pub abandoned_upgrade :
      (config : t.Config) (s : t.Plain) (c : Call) (cs : List Call)
      → t.upgrade s config ≡ waits
      → (upgrade t config (plain s) ≡ called pending empty)
        × (call_all (upgrades config ∷ c ∷ cs) (plain s) ≡ none)
  unfolding call_all call upgrade upgrade_inner
  abandoned_upgrade config s c cs h = (rw h refl, rw h (rw (call-empty c) refl))
    where
      call-empty : (c : Call) → call c empty ≡ none
      call-empty (read room) = unfold poll_read in refl
      call-empty (write bs) = unfold poll_write in refl
      call-empty flush = unfold poll_flush in refl
      call-empty shutdown = unfold poll_shutdown in refl
      call-empty (upgrades config) = refl

  -- How the sessions see a stream, a handshake and its end; they have no view of an empty one.
  abbrev pub seen : M → Option Stream
  seen (plain s) = some Stream.plain
  seen (tls s) = some Stream.tls
  seen empty = none

  abbrev pub answer_of : Handshake t.Plain t.Secure → Answer
  answer_of (secured s) = Answer.accepted
  answer_of (refused err s) = Answer.refused err
  answer_of waits = Answer.ignored

  abbrev pub outcome_of : Called t (Unit {0}) → Outcome (Unit {0})
  outcome_of (called (ready u) s) = returned tt
  outcome_of (called (broken err) s) = failed err
  outcome_of (called pending s) = stalled
  outcome_of panics = panicked

  abbrev pub stream_of : Called t (Unit {0}) → Option Stream
  stream_of (called r s) = seen s
  stream_of panics = none

  -- A handshake, where there is one, ends, and the environment answers it as it ends.
  abbrev pub AnswersAs : t.Config → M → List Answer → Type 0
  AnswersAs config (plain s) as_it =
      (rest : List Answer) × (as_it ≡ answer_of (t.upgrade s config) ∷ rest)
      × (t.upgrade s config ≢ waits)
  AnswersAs config _ as_it = Unit

  answered-plain :
      (x : Handshake t.Plain t.Secure) (w : World) (rest : List Answer)
      → w.stream ≡ Stream.plain
      → w.answers ≡ answer_of x ∷ rest
      → x ≢ waits
      → ((upgrade_stream Stream.plain w).0 ≡ outcome_of (put_back t empty (on_handshake t x)))
        × (some (upgrade_stream Stream.plain w).1.stream
            ≡ stream_of (put_back t empty (on_handshake t x)))
  unfolding upgrade_stream perform perform_on answer
  answered-plain (secured s) w rest k h n = rw h (refl, refl)
  answered-plain (refused err s) w rest k h n = rw h (refl, ap some k)
  answered-plain waits w rest k h n = absurd (n refl)

  -- On an open stream, the upgrade over which the sessions are modelled ends as `MaybeTls::upgrade`
  -- does, when the handshake ends and is answered as it ends: with the same result, and afterwards the
  -- stream of `MaybeTls` is open, and encrypted in both or in neither.
  pub upgrade_stream-upgrade :
      (config : t.Config) (s : M) (w : World)
      → some w.stream ≡ seen s
      → AnswersAs config s w.answers
      → ((upgrade_stream w.stream w).0 ≡ outcome_of (upgrade t config s))
        × (some (upgrade_stream w.stream w).1.stream ≡ stream_of (upgrade t config s))
  unfolding upgrade_stream upgrade upgrade_inner
  upgrade_stream-upgrade config empty w k h = cc
  upgrade_stream-upgrade config (tls s) w k h =
      let same : w.stream ≡ Stream.tls = cc in rw same (refl, refl)
  upgrade_stream-upgrade config (plain s) w k h =
      let same : w.stream ≡ Stream.plain = cc in
      simp same (answered-plain (t.upgrade s config) w (h.0) same (h.1) (h.2))
