-- ===== src/Io/Laws.antt =====
-- Triples: what an action guarantees when it returns, and what holds when it ends in any other way.
-- One rule for each way to build an action.
use brev.Base.{◌≡◌, subst}
use brev.Io.{Outcome, returned, failed, stalled, panicked, Async, pure, stall, continue, ◌>>=◌}

module _ {ℓ} {S : Type 0} {A : Type ℓ} where
  -- `Q` of the value and the state after a return, `E` of the state after anything else.
  abbrev pub Post : (A → S → Type 0) → (S → Type 0) → Outcome A → S → Type 0
  Post Q E (returned a) s = Q a s
  Post Q E (failed e) s = E s
  Post Q E stalled s = E s
  Post Q E panicked s = E s

  pub record Triple (P : S → Type 0) (m : Async S A) (Q : A → S → Type 0) (E : S → Type 0)
      : Type ℓ where
    pub at : (s : S) → P s → Post Q E (m s).0 (m s).1

  -- The same of a run whose end is known.
  pub Triple-ran :
      {P : S → Type 0} {m : Async S A} {Q : A → S → Type 0} {E : S → Type 0} {o : Outcome A}
      {s t : S}
      → Triple P m Q E
      → m s ≡ (o, t)
      → P s
      → Post Q E o t
  Triple-ran {Q = Q} {E = E} {s = s} t h p = subst (λ z. Post Q E z.0 z.1) h (t.at s p)

  Post-failed :
      (Q : A → S → Type 0) (E : S → Type 0) (o : Outcome A) (s : S)
      → ((a : A) → Q a s → E s)
      → Post Q E o s
      → E s
  Post-failed Q E (returned a) s f h = f a h
  Post-failed Q E (failed e) s f h = h
  Post-failed Q E stalled s f h = h
  Post-failed Q E panicked s f h = h

  -- What holds of the state alone holds however the action has ended.
  pub Post-state : (P E : S → Type 0) (o : Outcome A) (s : S) → P s → E s → Post (λ _. P) E o s
  Post-state P E (returned a) s h k = h
  Post-state P E (failed e) s h k = k
  Post-state P E stalled s h k = k
  Post-state P E panicked s h k = k

  module _ {E : S → Type 0} where
    pub Triple-pure : (Q : A → S → Type 0) (a : A) → Triple (Q a) (pure a) Q E
    Triple-pure Q a = record { at = λ s h. h }

    pub Triple-stall :
        (P : S → Type 0) (Q : A → S → Type 0) → ((s : S) → P s → E s) → Triple P stall Q E
    Triple-stall P Q f = record { at = f }

    pub Triple-weaken :
        {P : S → Type 0} (P' : S → Type 0) {m : Async S A} {Q : A → S → Type 0}
        → ((s : S) → P' s → P s)
        → Triple P m Q E
        → Triple P' m Q E
    Triple-weaken P' f t = record { at = λ s h. t.at s (f s h) }

module _ {ℓ κ} {S : Type 0} {A : Type ℓ} {B : Type κ} {E : S → Type 0} where
  Post-continue :
      (Q : A → S → Type 0) (R : B → S → Type 0) (f : A → Async S B) (o : Outcome A) (s : S)
      → ((a : A) → Triple (Q a) (f a) R E)
      → Post Q E o s
      → Post R E (continue o f s).0 (continue o f s).1
  Post-continue Q R f (returned a) s t h = (t a).at s h
  Post-continue Q R f (failed e) s t h = h
  Post-continue Q R f stalled s t h = h
  Post-continue Q R f panicked s t h = h

  pub Triple-bind :
      {P : S → Type 0} {Q : A → S → Type 0} {R : B → S → Type 0} {m : Async S A} {f : A → Async S B}
      → Triple P m Q E
      → ((a : A) → Triple (Q a) (f a) R E)
      → Triple P (m >>= f) R E
  Triple-bind {Q = Q} {R = R} {m = m} {f = f} t u = record {
    at = λ s h. Post-continue Q R f (m s).0 (m s).1 u (t.at s h);
  }
