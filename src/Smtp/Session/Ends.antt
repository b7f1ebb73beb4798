-- ===== src/Smtp/Session/Ends.antt =====
-- The dialogue ends: the fuel of its loops is enough, and no command makes the server hang.
use brev.Base.{
  ℕ, zero, suc, ◌≤◌, ◌<◌, refl, ◌≢◌, Bool, true, false, Option, none, some, arith, length,
}
use brev.Io.{Async, Outcome, returned, failed, stalled, panicked, continue}
use brev.Io.Settles.{Prompt, Settled, Settles-pure, Settles-bind}
use brev.Smtp.Command.{Command}
use brev.Smtp.Reader.{read_cmd}
use brev.Smtp.Reader.Ends.{Read, read_cmd-Read}
use brev.Smtp.Session.Settles.{Ends, Ends-say, Ends-modify, Ends-handle}
use brev.Smtp.Session.{
  Crates, Incoming, Session, on_connection, greet, after_handle, on_command, loop_within,
  greet_once, next_message,
}

module _ (k : Crates) where
  Ends-after_handle :
      {n : ℕ} (again : Async (Session k) (Option (Incoming k))) (r : Option (Incoming k))
      → Ends k n again
      → Ends k n (after_handle k again r)
  unfolding after_handle
  Ends-after_handle again none t = t
  Ends-after_handle again (some m) t = Settles-pure _ (some m)

  -- After a command is read, fewer answers are left for the next turn.
  Settled-on_command :
      {n : ℕ} (again : Async (Session k) (Option (Incoming k)))
      (o : Outcome (Option (Command k.nom k.mail))) (s : Session k)
      → ((m : ℕ) → m < n → Ends k m again)
      → Read n o s.connection
      → o ≢ stalled
      → Settled n
          (continue o (on_command k again) s).0
          (continue o (on_command k again) s).1.connection
  unfolding on_command
  Settled-on_command again (returned none) s t r e = record {
    ends = λ z. cc;
    prompt = r.prompt;
    fewer = r.fewer;
  }
  Settled-on_command {n = zero} again (returned (some c)) s t r e =
      absurd (omega (arith, r.taken c refl))
  Settled-on_command {n = suc n} again (returned (some c)) s t r e =
      let q =
        (Settles-bind _ (Ends-handle k c) (λ m. Ends-after_handle again m (t n (omega arith)))).at s
          r.prompt (omega (arith, r.taken c refl)) in
      record { ends = q.ends; prompt = q.prompt; fewer = omega (arith, q.fewer) }
  Settled-on_command again (failed z) s t r e = record {
    ends = λ z. cc;
    prompt = r.prompt;
    fewer = r.fewer;
  }
  Settled-on_command again stalled s t r e = absurd (e refl)
  Settled-on_command again panicked s t r e = record {
    ends = λ z. cc;
    prompt = r.prompt;
    fewer = r.fewer;
  }

  Ends-loop_within : (fuel n : ℕ) → n < fuel → Ends k n (loop_within k fuel)
  unfolding loop_within on_connection
  Ends-loop_within zero n less = absurd (omega arith)
  Ends-loop_within (suc fuel) n less = record {
    at = λ s p h.
        let (r, e) = read_cmd-Read k.nom k.mail n s.connection p h in
        Settled-on_command (loop_within k fuel) (read_cmd k.nom k.mail s.connection).0
          (record s { connection = (read_cmd k.nom k.mail s.connection).1 })
          (λ m l. Ends-loop_within fuel m (omega arith)) r e;
  }

  Ends-greet : {n : ℕ} → Ends k n (greet k)
  unfolding greet
  Ends-greet = record { at = λ s p h. (Ends-say k _).at s p h }

  Ends-greet_once : {n : ℕ} (greeted : Bool) → Ends k n (greet_once k greeted)
  unfolding greet_once
  Ends-greet_once true = Settles-pure _ tt
  Ends-greet_once false = Settles-bind _ Ends-greet (λ _. Ends-modify k (λ s. refl))

  Ends-turns : {n : ℕ} → Ends k n (λ s. loop_within k (suc (length s.connection.incoming)) s)
  Ends-turns = record {
    at = λ s p h.
        let inc = length s.connection.incoming in
        let q = (Ends-loop_within (suc inc) inc (omega arith)).at s p (omega arith) in
        record { ends = q.ends; prompt = q.prompt; fewer = omega (arith, q.fewer, h) };
  }

  -- Where every write, flush, shutdown and handshake is answered in time, a call of `next_message`
  -- does not wait for ever, whatever the client sends: it returns, fails or panics.
  pub next_message_ends :
      (s : Session k) → Prompt s.connection.answers → (next_message k s).0 ≢ stalled
  unfolding next_message
  next_message_ends s p =
      let all : length s.connection.incoming ≤ length s.connection.incoming = omega arith in
      let q = (Settles-bind _ (Ends-greet_once s.greeted) (λ _. Ends-turns)).at s p all in q.ends
