-- ===== src/Io/Finishes.antt =====
-- Actions that do not wait for ever while the client closes the connection in the end and every write
-- is answered in time. Here, other than in Io.Settles, a read may have no limit of time.
use brev.Base.{refl, ℕ, ◌≤◌, List, [], ◌∷◌, arith, length}
use brev.Io.{
  World, Incoming, chunk, fault, silence, Answer, accepted, refused, ignored, Sent, Outcome,
  returned, failed, stalled, panicked, Async, pure, continue, ◌>>=◌, perform, perform_on, answer,
}
use brev.Io.Settles.{Prompt}

module _ {ℓ} {S : Type 0} {A : Type ℓ} where
  -- The action has ended; if it has returned, with `Q`.
  abbrev pub Ended : (A → S → Type 0) → Outcome A → S → Type 0
  Ended Q (returned a) s = Q a s
  Ended Q (failed e) s = Unit
  Ended Q stalled s = ⊥
  Ended Q panicked s = Unit

  pub record Finishes (P : S → Type 0) (m : Async S A) (Q : A → S → Type 0) : Type ℓ where
    pub at : (s : S) → P s → Ended Q (m s).0 (m s).1

  pub Finishes-pure : (Q : A → S → Type 0) (a : A) → Finishes (Q a) (pure a) Q
  Finishes-pure Q a = record { at = λ s h. h }

  pub Finishes-before :
      {P : S → Type 0} (P' : S → Type 0) {m : Async S A} {Q : A → S → Type 0}
      → ((s : S) → P' s → P s)
      → Finishes P m Q
      → Finishes P' m Q
  Finishes-before P' f t = record { at = λ s h. t.at s (f s h) }

  Ended-after :
      (Q Q' : A → S → Type 0) (o : Outcome A) (s : S)
      → ((a : A) → Q a s → Q' a s)
      → Ended Q o s
      → Ended Q' o s
  Ended-after Q Q' (returned a) s f h = f a h
  Ended-after Q Q' (failed e) s f h = tt
  Ended-after Q Q' stalled s f h = absurd h
  Ended-after Q Q' panicked s f h = tt

  pub Finishes-after :
      {P : S → Type 0} {m : Async S A} {Q : A → S → Type 0} (Q' : A → S → Type 0)
      → ((a : A) (s : S) → Q a s → Q' a s)
      → Finishes P m Q
      → Finishes P m Q'
  Finishes-after {m = m} {Q = Q} Q' f t = record {
    at = λ s h. Ended-after Q Q' (m s).0 (m s).1 (λ a. f a (m s).1) (t.at s h);
  }

module _ {ℓ κ} {S : Type 0} {A : Type ℓ} {B : Type κ} where
  Ended-continue :
      (Q : A → S → Type 0) (R : B → S → Type 0) (f : A → Async S B) (o : Outcome A) (s : S)
      → ((a : A) → Finishes (Q a) (f a) R)
      → Ended Q o s
      → Ended R (continue o f s).0 (continue o f s).1
  Ended-continue Q R f (returned a) s t h = (t a).at s h
  Ended-continue Q R f (failed e) s t h = tt
  Ended-continue Q R f stalled s t h = absurd h
  Ended-continue Q R f panicked s t h = tt

  pub Finishes-bind :
      {P : S → Type 0} {Q : A → S → Type 0} {R : B → S → Type 0} {m : Async S A} {f : A → Async S B}
      → Finishes P m Q
      → ((a : A) → Finishes (Q a) (f a) R)
      → Finishes P (m >>= f) R
  Finishes-bind {Q = Q} {R = R} {m = m} {f = f} t u = record {
    at = λ s h. Ended-continue Q R f (m s).0 (m s).1 u (t.at s h);
  }

-- A read finds the end of the stream, or an error, before one that is never answered.
abbrev pub Closes : List Incoming → Type 0
Closes [] = ⊥
Closes (chunk [] more ∷ rest) = Unit
Closes (chunk (c ∷ cs) more ∷ rest) = Closes rest
Closes (fault e ∷ rest) = Unit
Closes (silence ∷ rest) = ⊥

-- What the environment will answer, with at most `n` answers to reads.
pub record Calm (n : ℕ) (w : World) : Type 0 where
  pub prompt : Prompt w.answers
  pub closes : Closes w.incoming
  pub fewer : length w.incoming ≤ n

pub Calm-more : {m n : ℕ} {w : World} → Calm m w → m ≤ n → Calm n w
Calm-more h l = record { prompt = h.prompt; closes = h.closes; fewer = omega (arith, h.fewer, l) }

pub Finishes-perform : {n : ℕ} (s : Sent) → Finishes (Calm n) (perform s) (λ _. Calm n)
unfolding perform perform_on answer
Finishes-perform {n} s = record { at = λ w h. on_answers w.answers w h.prompt h }
  where
    on_answers :
        (answers : List Answer) (w : World)
        → Prompt answers
        → Calm n w
        → Ended (λ _. Calm n) (perform_on answers s w).0 (perform_on answers s w).1
    on_answers [] w p h = record { prompt = p; closes = h.closes; fewer = h.fewer }
    on_answers (accepted ∷ rest) w p h = record { prompt = p.1; closes = h.closes; fewer = h.fewer }
    on_answers (refused e ∷ rest) w p h = tt
    on_answers (ignored ∷ rest) w p h = absurd (p.0 refl)

pub Calm-zero : {w : World} → Calm 0 w → ⊥
Calm-zero {w = w} h = none_left w.incoming h.closes h.fewer
  where
    none_left : (inc : List Incoming) → Closes inc → length inc ≤ 0 → ⊥
    none_left [] c l = c
    none_left (a ∷ rest) c l = omega arith
