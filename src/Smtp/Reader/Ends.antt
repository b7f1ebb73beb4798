-- ===== src/Smtp/Reader/Ends.antt =====
-- Reading a command ends, and takes a line from the connection.
use brev.Base.{
  ℕ, zero, suc, ◌≤◌, ◌<◌, ◌≡◌, ◌≢◌, Option, some, List, [], ◌∷◌, ◌++◌, arith, length, Bytes, codes,
  crlf,
}
use brev.Io.{
  World, Io, Incoming, chunk, fault, silence, Outcome, returned, failed, stalled, panicked, wrote,
  flushed, closed, continue, ◌>>=◌, ◌>>◌, read_until, receive_from,
}
use brev.Io.Settles.{Prompt, Settled, Settles, Settles-bind, Settles-perform}
use brev.Line.{ReadLine, line, eof, read_line, line_of, write, flush, write_flush, shutdown}
use brev.Nom.{Nom}
use brev.Smtp.Command.{
  EmailAddress, unrecognized_command, invalid_utf8, syntax, Parsed, ok, err, Command, try_from,
}
use brev.Smtp.Reader.{bye, timeout, on_parsed, on_line, read_cmd_within, read_cmd_inner, read_cmd}

pub Settles-write_flush : {n : ℕ} (text : Bytes) → Settles (λ w. w) n (write_flush text)
unfolding write_flush write flush
Settles-write_flush text =
    Settles-bind (λ w. w) (Settles-perform (wrote text)) (λ _. Settles-perform flushed)

pub Settles-bye : {n : ℕ} → Settles (λ w. w) n bye
unfolding bye write shutdown
Settles-bye =
    Settles-bind (λ w. w) (Settles-perform (wrote (codes "221 Bye\r\n")))
      (λ _. Settles-perform closed)

-- A command that is read has taken a line.
pub record Read {A : Type 0} (n : ℕ) (o : Outcome (Option A)) (w : World) : Type 0 where
  pub prompt : Prompt w.answers
  pub fewer : length w.incoming ≤ n
  pub taken : (a : A) → o ≡ returned (some a) → length w.incoming < n

Read-other :
    {A : Type 0} {n : ℕ} {o : Outcome (Option A)} {w : World}
    → Prompt w.answers
    → length w.incoming ≤ n
    → ((a : A) → o ≢ returned (some a))
    → Read n o w
Read-other p h k = record { prompt = p; fewer = h; taken = λ a e. absurd (k a e) }

module _ (nom : Nom) (mail : EmailAddress) where
  abbrev C : Type 0
  C = Command nom mail

  -- The next round, from fewer than `n` answers.
  abbrev Again : ℕ → Io (Option C) → Type 0
  Again n again =
      (w : World) → Prompt w.answers → length w.incoming < n → Read n (again w).0 (again w).1

  after_say :
      {n : ℕ} (again : Io (Option C)) (o : Outcome (Unit {0})) (w : World)
      → Again n again
      → Settled n o w
      → length w.incoming < n
      → Read n (continue o (λ _. again) w).0 (continue o (λ _. again) w).1
  after_say again (returned u) w k h less = k w h.prompt less
  after_say again (failed e) w k h less = Read-other h.prompt h.fewer (λ a z. cc)
  after_say again stalled w k h less = Read-other h.prompt h.fewer (λ a z. cc)
  after_say again panicked w k h less = Read-other h.prompt h.fewer (λ a z. cc)

  said :
      {n : ℕ} (again : Io (Option C)) (text : Bytes) (w : World)
      → Again (suc n) again
      → Prompt w.answers
      → length w.incoming ≤ n
      → Read (suc n) ((write_flush text >> again) w).0 ((write_flush text >> again) w).1
  said {n} again text w k p h =
      let s = (Settles-write_flush {n = n} text).at w p h in
      after_say again (write_flush text w).0 (write_flush text w).1 k
        (record { ends = s.ends; prompt = s.prompt; fewer = omega (arith, s.fewer) })
        (omega (arith, s.fewer))

  on_parsed-Read :
      {n : ℕ} (again : Io (Option C)) (c : Parsed C) (w : World)
      → Again (suc n) again
      → Prompt w.answers
      → length w.incoming ≤ n
      → Read (suc n) (on_parsed nom mail again c w).0 (on_parsed nom mail again c w).1
  unfolding on_parsed
  on_parsed-Read again (ok c) w k p h = record {
    prompt = p;
    fewer = omega arith;
    taken = λ a e. omega arith;
  }
  on_parsed-Read again (err invalid_utf8) w k p h = k w p (omega arith)
  on_parsed-Read again (err (syntax correct)) w k p h =
      said again (codes "501 Syntax: " ++ (correct ++ crlf)) w k p h
  on_parsed-Read again (err unrecognized_command) w k p h =
      said again (codes "500 Unrecognized command\r\n") w k p h

  on_line-Read :
      {n : ℕ} (again : Io (Option C)) (l : ReadLine) (w : World)
      → Again (suc n) again
      → Prompt w.answers
      → length w.incoming ≤ n
      → Read (suc n) (on_line nom mail again l w).0 (on_line nom mail again l w).1
  unfolding on_line
  on_line-Read again eof w k p h = Read-other p (omega arith) (λ a e. cc)
  on_line-Read again (line buf) w k p h = on_parsed-Read again (try_from nom mail buf) w k p h

  -- A round, on the answers that the environment will give.
  round-Read :
      (n : ℕ) (again : Io (Option C)) (inc : List Incoming) (w : World)
      → Again n again
      → Prompt w.answers
      → length inc ≤ n
      → Read n
          ((read_line [] >>= on_line nom mail again) (record w { incoming = inc })).0
          ((read_line [] >>= on_line nom mail again) (record w { incoming = inc })).1
  unfolding read_line read_until receive_from
  round-Read n again [] w k p h = Read-other p h (λ a e. cc)
  round-Read n again (fault e ∷ rest) w k p h = Read-other p (omega arith) (λ a z. cc)
  round-Read n again (silence ∷ rest) w k p h = Read-other p (omega arith) (λ a z. cc)
  round-Read zero again (chunk bs more ∷ rest) w k p h = absurd (omega arith)
  round-Read (suc n) again (chunk bs more ∷ rest) w k p h =
      on_line-Read again (line_of bs) (record w { incoming = rest; buffered = more }) k p
        (omega arith)

  read_cmd_within-Read :
      (fuel n : ℕ) (w : World)
      → Prompt w.answers
      → length w.incoming ≤ n
      → Read n (read_cmd_within nom mail fuel w).0 (read_cmd_within nom mail fuel w).1
  unfolding read_cmd_within
  read_cmd_within-Read zero n w p h = Read-other p h (λ a e. cc)
  read_cmd_within-Read (suc fuel) n w p h =
      round-Read n (read_cmd_within nom mail fuel) w.incoming w
        (λ v q less. read_cmd_within-Read fuel n v q (omega arith)) p h

  timeout_returned :
      (o : Outcome (Option C)) (c : Option C) → timeout o ≡ returned c → o ≡ returned c
  unfolding timeout
  timeout_returned (returned a) c e = e
  timeout_returned (failed z) c e = cc
  timeout_returned stalled c e = cc
  timeout_returned panicked c e = cc

  timeout_ends : (o : Outcome (Option C)) → timeout o ≢ stalled
  unfolding timeout
  timeout_ends (returned a) e = cc
  timeout_ends (failed z) e = cc
  timeout_ends stalled e = cc
  timeout_ends panicked e = cc

  pub read_cmd-Read :
      (n : ℕ) (w : World)
      → Prompt w.answers
      → length w.incoming ≤ n
      → Read n (read_cmd nom mail w).0 (read_cmd nom mail w).1 × ((read_cmd nom mail w).0 ≢ stalled)
  unfolding read_cmd read_cmd_inner
  read_cmd-Read n w p h =
      let r = read_cmd_within-Read (suc (length w.incoming)) n w p h in
      (
        record {
          prompt = r.prompt;
          fewer = r.fewer;
          taken = λ a e. r.taken a (timeout_returned _ (some a) e);
        },
        timeout_ends _,
      )
