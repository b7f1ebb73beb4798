-- ===== src/Io/Settles.antt =====
-- Actions that come to an end: where every write is answered in time, they never wait for ever, and
-- they give the environment no new answers.
use brev.Base.{ℕ, ◌≤◌, refl, ◌≢◌, List, [], ◌∷◌, All, length}
use brev.Io.{
  World, Answer, accepted, refused, ignored, Sent, Outcome, returned, failed, stalled, panicked,
  Async, pure, continue, ◌>>=◌, perform, perform_on, answer,
}

-- Every write is answered in time.
abbrev pub Prompt : List Answer → Type 0
Prompt = All (λ a. a ≢ ignored)

pub record Settled {ℓ} {A : Type ℓ} (n : ℕ) (o : Outcome A) (w : World) : Type ℓ where
  pub ends : o ≢ stalled
  pub prompt : Prompt w.answers
  pub fewer : length w.incoming ≤ n

module _ {S : Type 0} (world : S → World) where
  -- From at most `n` answers to reads.
  pub record Settles {ℓ} {A : Type ℓ} (n : ℕ) (m : Async S A) : Type ℓ where
    pub at :
        (s : S)
        → Prompt (world s).answers
        → length (world s).incoming ≤ n
        → Settled n (m s).0 (world (m s).1)

  pub Settles-pure {ℓ} : {A : Type ℓ} {n : ℕ} (a : A) → Settles n (pure a)
  Settles-pure a = record { at = λ s p h. record { ends = λ e. cc; prompt = p; fewer = h } }

  Settled-continue {ℓ κ} :
      {A : Type ℓ} {B : Type κ} {n : ℕ} (o : Outcome A) (f : A → Async S B) (s : S)
      → Settled n o (world s)
      → ((a : A) → Settles n (f a))
      → Settled n (continue o f s).0 (world (continue o f s).1)
  Settled-continue (returned a) f s h k = (k a).at s h.prompt h.fewer
  Settled-continue (failed e) f s h k = record {
    ends = λ z. cc;
    prompt = h.prompt;
    fewer = h.fewer;
  }
  Settled-continue stalled f s h k = absurd (h.ends refl)
  Settled-continue panicked f s h k = record { ends = λ z. cc; prompt = h.prompt; fewer = h.fewer }

  pub Settles-bind {ℓ κ} :
      {A : Type ℓ} {B : Type κ} {n : ℕ} {m : Async S A} {f : A → Async S B}
      → Settles n m
      → ((a : A) → Settles n (f a))
      → Settles n (m >>= f)
  Settles-bind {m = m} {f} t k = record {
    at = λ s p h. Settled-continue (m s).0 f (m s).1 (t.at s p h) k;
  }

pub Settles-perform : {n : ℕ} (s : Sent) → Settles (λ w. w) n (perform s)
unfolding perform perform_on answer
Settles-perform {n} s = record { at = λ w p h. on_answers w.answers w p h }
  where
    on_answers :
        (answers : List Answer) (w : World)
        → Prompt answers
        → length w.incoming ≤ n
        → Settled n (perform_on answers s w).0 (perform_on answers s w).1
    on_answers [] w p h = record { ends = λ e. cc; prompt = p; fewer = h }
    on_answers (accepted ∷ rest) w p h = record { ends = λ e. cc; prompt = p.1; fewer = h }
    on_answers (refused e ∷ rest) w p h = record { ends = λ z. cc; prompt = p.1; fewer = h }
    on_answers (ignored ∷ rest) w p h = absurd (p.0 refl)
