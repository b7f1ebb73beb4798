-- ===== src/Smtp/Bdat/Ends.antt =====
-- Waiting for the next chunk ends.
use brev.Base.{
  ℕ, zero, suc, ◌≤◌, ◌<◌, ◌≡◌, refl, ◌≢◌, Bool, Bytes, codes, Option, none, some, arith, length,
}
use brev.Io.{
  World, Io, Outcome, returned, failed, stalled, panicked, IoError, unexpected_eof, fail, continue,
  ◌>>◌,
}
use brev.Io.Settles.{Prompt, Settled}
use brev.Line.{write_flush}
use brev.Nom.{Nom}
use brev.Smtp.Command.{EmailAddress, Command, rset, noop, quit, bdat}
use brev.Smtp.Reader.{bye, read_cmd}
use brev.Smtp.Reader.Ends.{Read, read_cmd-Read, Settles-write_flush, Settles-bye}
use brev.Smtp.Bdat.{on_bdat_command, next_bdat_within, next_bdat_rounds, next_bdat}

-- An action on a connection that comes to an end and, when it returns, has taken an answer.
pub record Took {A : Type 0} (n : ℕ) (o : Outcome A) (w : World) : Type 0 where
  pub ends : o ≢ stalled
  pub prompt : Prompt w.answers
  pub fewer : length w.incoming ≤ n
  pub took : (a : A) → o ≡ returned a → length w.incoming < n

Took-unreturned :
    {A : Type 0} {n m : ℕ} {o : Outcome A} {w : World}
    → Settled m o w
    → m ≤ n
    → ((a : A) → o ≢ returned a)
    → Took n o w
Took-unreturned s l h = record {
  ends = s.ends;
  prompt = s.prompt;
  fewer = omega (arith, s.fewer, l);
  took = λ a e. absurd (h a e);
}

Took-more : {A : Type 0} {n m : ℕ} {o : Outcome A} {w : World} → Took m o w → m ≤ n → Took n o w
Took-more s l = record {
  ends = s.ends;
  prompt = s.prompt;
  fewer = omega (arith, s.fewer, l);
  took = λ a e. omega (arith, s.took a e, l);
}

abbrev Takes : {A : Type 0} → ℕ → Io A → Type 0
Takes n io = (w : World) → Prompt w.answers → length w.incoming ≤ n → Took n (io w).0 (io w).1

Took-after :
    {A : Type 0} {n : ℕ} (io : Io A) (o : Outcome (Unit {0})) (w : World)
    → Takes n io
    → Settled n o w
    → Took n (continue o (λ _. io) w).0 (continue o (λ _. io) w).1
Took-after io (returned u) w t s = t w s.prompt s.fewer
Took-after io (failed z) w t s =
    Took-unreturned (record { ends = λ y. cc; prompt = s.prompt; fewer = s.fewer }) (omega arith)
      (λ a y. cc)
Took-after io stalled w t s = absurd (s.ends refl)
Took-after io panicked w t s =
    Took-unreturned (record { ends = λ y. cc; prompt = s.prompt; fewer = s.fewer }) (omega arith)
      (λ a y. cc)

Takes-say :
    {A : Type 0} {n : ℕ} (text : Bytes) {io : Io A} → Takes n io → Takes n (write_flush text >> io)
Takes-say text {io} t w p h =
    Took-after io (write_flush text w).0 (write_flush text w).1 t
      ((Settles-write_flush text).at w p h)

Takes-fail : {A : Type 0} {n : ℕ} (e : IoError) → Takes {A = A} n (fail e)
Takes-fail e w p h = record { ends = λ z. cc; prompt = p; fewer = h; took = λ a z. cc }

module _ (nom : Nom) (mail : EmailAddress) where
  -- The command that is read leaves fewer answers.
  on_bdat_command-Took :
      {n : ℕ} (again : Io (ℕ × Bool)) (c : Option (Command nom mail)) (w : World)
      → Takes n again
      → Prompt w.answers
      → length w.incoming ≤ n
      → Took (suc n) (on_bdat_command nom mail again c w).0 (on_bdat_command nom mail again c w).1
  unfolding on_bdat_command
  on_bdat_command-Took {n} again none w t p h =
      Took-more (Takes-fail {n = n} unexpected_eof w p h) (omega arith)
  on_bdat_command-Took again (some (bdat size last)) w t p h = record {
    ends = λ z. cc;
    prompt = p;
    fewer = omega arith;
    took = λ a z. omega arith;
  }
  on_bdat_command-Took {n} again (some quit) w t p h =
      Took-more
        (Took-after (fail unexpected_eof) (bye w).0 (bye w).1 (Takes-fail {n = n} unexpected_eof)
          (Settles-bye.at w p h))
        (omega arith)
  on_bdat_command-Took {n} again (some rset) w t p h =
      Took-more (Takes-fail {n = n} unexpected_eof w p h) (omega arith)
  on_bdat_command-Took again (some noop) w t p h =
      Took-more (Takes-say (codes "250 ok\r\n") t w p h) (omega arith)
  on_bdat_command-Took again (some _) w t p h =
      Took-more (Takes-say (codes "503 expected BDAT\r\n") t w p h) (omega arith)

  Took-command :
      {n : ℕ} (again : Io (ℕ × Bool)) (o : Outcome (Option (Command nom mail))) (w : World)
      → ((m : ℕ) → m < n → Takes m again)
      → Read n o w
      → o ≢ stalled
      → Took n
          (continue o (on_bdat_command nom mail again) w).0
          (continue o (on_bdat_command nom mail again) w).1
  Took-command {n} again (returned none) w t r e =
      unfold on_bdat_command in Takes-fail unexpected_eof w r.prompt r.fewer
  Took-command {n = zero} again (returned (some c)) w t r e = absurd (omega (arith, r.taken c refl))
  Took-command {n = suc n} again (returned (some c)) w t r e =
      on_bdat_command-Took again (some c) w (t n (omega arith)) r.prompt
        (omega (arith, r.taken c refl))
  Took-command again (failed z) w t r e =
      Took-unreturned (record { ends = λ y. cc; prompt = r.prompt; fewer = r.fewer }) (omega arith)
        (λ a y. cc)
  Took-command again stalled w t r e = absurd (e refl)
  Took-command again panicked w t r e =
      Took-unreturned (record { ends = λ y. cc; prompt = r.prompt; fewer = r.fewer }) (omega arith)
        (λ a y. cc)

  Takes-next_bdat_within : (fuel n : ℕ) → n < fuel → Takes n (next_bdat_within nom mail fuel)
  unfolding next_bdat_within
  Takes-next_bdat_within zero n less w p h = absurd (omega arith)
  Takes-next_bdat_within (suc fuel) n less w p h =
      let (r, e) = read_cmd-Read nom mail n w p h in
      Took-command (next_bdat_within nom mail fuel) (read_cmd nom mail w).0 (read_cmd nom mail w).1
        (λ m l. Takes-next_bdat_within fuel m (omega arith)) r e

  Takes-next_bdat_rounds : {n : ℕ} → Takes n (next_bdat_rounds nom mail)
  unfolding next_bdat_rounds
  Takes-next_bdat_rounds w p h =
      let all = length w.incoming in
      Took-more (Takes-next_bdat_within (suc all) all (omega arith) w p (omega arith)) h

  -- The size of the next chunk comes with an answer of the environment.
  pub Took-next_bdat :
      (w : World)
      → Prompt w.answers
      → Took (length w.incoming) (next_bdat nom mail w).0 (next_bdat nom mail w).1
  unfolding next_bdat
  Took-next_bdat w p =
      Takes-say {n = length w.incoming} (codes "250 ok\r\n") Takes-next_bdat_rounds w p
        (omega arith)

  -- Where every write, flush and shutdown is answered in time, `next_bdat` does not wait for ever,
  -- whatever the client sends between two chunks: it returns, fails or panics.
  pub next_bdat_ends : (w : World) → Prompt w.answers → (next_bdat nom mail w).0 ≢ stalled
  next_bdat_ends w p = (Took-next_bdat w p).ends
