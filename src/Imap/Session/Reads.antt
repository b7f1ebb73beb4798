-- ===== src/Imap/Session/Reads.antt =====
-- `next_cmd` ends while the client closes the connection in the end.
use brev.Base.{
  ℕ, zero, suc, ◌≤◌, ◌<◌, ◌≡◌, refl, ◌≢◌, Bool, true, false, Option, none, some, [], ◌∷◌, arith,
  length,
}
use brev.Io.{World, Outcome, returned, failed, stalled, panicked}
use brev.Io.Finishes.{
  Ended, Finishes, Finishes-pure, Finishes-bind, Finishes-before, Finishes-after,
}
use brev.Imap.Command.{CommandName, TaggedCommand, name}
use brev.Imap.Queue.{Commands, must_wait_before}
use brev.Imap.Ops.{OpResult}
use brev.Imap.Reader.{read_tagged}
use brev.Imap.Reader.Finishes.{AfterRead, Finishes-read_tagged}
use brev.Imap.Session.{Environment, ImapSession, Act, on_wire}
use brev.Imap.Session.Finishes.{Attended, Attends}
use brev.Imap.Session.Loop.{consume_all_within, wait_on, wait_all_within, on_read, next_cmd}
use brev.Imap.Session.Consumes.{Finishes-wait, Finishes-consume_ready, Finishes-consume_all}

module _ (e : Environment) where
  abbrev R : Type 0
  R = OpResult e.attributes

  busy_of : (n k : ℕ) (cs : Commands) → (elim cs [ [] ↦ false | c ∷ rest ↦ true ]) ≡ true → cs ≢ []
  busy_of n k [] h z = cc
  busy_of n k (c ∷ cs) h z = cc

  nonempty_of : (cs : Commands) → cs ≢ [] → 0 < length cs
  nonempty_of [] h = absurd (h refl)
  nonempty_of (c ∷ cs) h = omega arith

  more_busy : (n k c : ℕ) (s : ImapSession e) → Attended e n k 0 s → Attended e n k c s
  more_busy n k c s h = record {
    calm = h.calm;
    looks = h.looks;
    busy = omega (arith, h.busy);
    single = h.single;
    arrives = h.arrives;
  }

  Finishes-wait_on :
      (n k c : ℕ) (again : Act e (Unit {0})) (next : CommandName) (b : Bool)
      → (0 < c → Attends e n k 0 again)
      → Finishes
          (λ s. Attended e n k c s × (must_wait_before R s.queue next ≡ b))
          (wait_on e again b)
          (λ _. Attended e n k c)
  unfolding wait_on
  Finishes-wait_on n k c again next false t = record { at = λ s h. h.0 }
  Finishes-wait_on n k zero again next true t = record {
    at = λ s h. absurd (
        let some_left = nonempty_of s.queue.commands (busy_of n k s.queue.commands (h.1)) in
        omega (arith, some_left, (h.0).busy));
  }
  Finishes-wait_on n k (suc c) again next true t =
      Finishes-bind
        (Finishes-before _ (λ s h. (h.0, busy_of n k s.queue.commands (h.1)))
          (Finishes-wait e n k (suc c)))
        (λ p. Finishes-bind (Finishes-consume_ready e p) (λ _.
          Finishes-after (λ _. Attended e n k (suc c)) (λ _. more_busy n k (suc c))
            (t (omega arith))))

  Finishes-wait_all :
      (fuel n k c : ℕ) (next : CommandName)
      → c < fuel
      → Attends e n k c (wait_all_within e fuel next)
  unfolding wait_all_within
  Finishes-wait_all zero n k c next less = absurd (omega arith)
  Finishes-wait_all (suc fuel) n k c next less = record {
    at = λ s h.
        (Finishes-wait_on n k c (wait_all_within e fuel next) next (must_wait_before R s.queue next)
            (λ l. Finishes-wait_all fuel n k 0 next (omega (arith, less, l)))).at
          s (h, refl);
  }

  -- After a line is read: fewer reads are left.
  abbrev Read : {A : Type 0} → ℕ → ℕ → ℕ → Option A → ImapSession e → Type 0
  Read n k c none s = Unit
  Read zero k c (some a) s = ⊥
  Read (suc n) k c (some a) s = Attended e n k c s

  Finishes-Read :
      (n k c : ℕ)
      → Finishes (Attended e n k c) (on_wire e (read_tagged e.caps e.items e.nom)) (Read n k c)
  unfolding on_wire
  Finishes-Read n k c = record {
    at = λ s h.
        let (o, w) = read_tagged e.caps e.items e.nom s.connection in
        ended n o w s h ((Finishes-read_tagged e.caps e.items e.nom n).at s.connection h.calm);
  }
    where
      ended :
          (n : ℕ) (o : Outcome (Option (TaggedCommand e.caps e.items))) (w : World)
          (s : ImapSession e)
          → Attended e n k c s
          → Ended (AfterRead n) o w
          → Ended (Read n k c) o (record s { connection = w })
      ended n (returned none) w s h t = tt
      ended zero (returned (some a)) w s h t = absurd t
      ended (suc n) (returned (some a)) w s h t = record {
        calm = t;
        looks = h.looks;
        busy = h.busy;
        single = h.single;
        arrives = h.arrives;
      }
      ended n (failed z) w s h t = tt
      ended n stalled w s h t = absurd t
      ended n panicked w s h t = tt

  -- The bounds are those of the state.
  tight :
      (n k c : ℕ) (s : ImapSession e)
      → Attended e n k c s
      → Attended e n (length s.queue.rx) (length s.queue.commands) s
  tight n k c s h = record {
    calm = h.calm;
    looks = omega arith;
    busy = omega arith;
    single = h.single;
    arrives = h.arrives;
  }

  loose : (n j k c : ℕ) (s : ImapSession e) → j ≤ k → Attended e n j c s → Attended e n k 1 s
  loose n j k c s l h = record {
    calm = h.calm;
    looks = omega (arith, h.looks, l);
    busy = h.single;
    single = h.single;
    arrives = h.arrives;
  }

  abbrev Awaits : CommandName → Act e (Unit {0})
  Awaits next s = wait_all_within e (suc (length s.queue.commands)) next s

  Finishes-awaits : (n k : ℕ) (next : CommandName) → Attends e n k 1 (Awaits next)
  Finishes-awaits n k next = record {
    at = λ s h.
        let b = length s.queue.commands in
        (Finishes-after (λ _. Attended e n k 1) (λ _ v. loose n (length s.queue.rx) k b v h.looks)
            (Finishes-wait_all (suc b) n (length s.queue.rx) b next (omega arith))).at
          s (tight n k 1 s h);
  }

  abbrev Consumes : Act e (Unit {0})
  Consumes s = consume_all_within e (suc (length s.queue.rx)) s

  Finishes-consumes : (n k : ℕ) → Attends e n k 1 Consumes
  Finishes-consumes n k = record {
    at = λ s h.
        let b = length s.queue.commands in
        (Finishes-after (λ _. Attended e n k 1) (λ _ v. loose n (length s.queue.rx) k b v h.looks)
            (Finishes-consume_all e (suc (length s.queue.rx)) n (length s.queue.rx) b
              (omega arith))).at
          s (tight n k 1 s h);
  }

  -- After a command is read: fewer reads are left.
  abbrev pub Next : {A : Type 0} → ℕ → ℕ → A → ImapSession e → Type 0
  Next zero k a s = ⊥
  Next (suc n) k a s = Attended e n k 1 s

  Finishes-on_read :
      (n k : ℕ) (c : Option (TaggedCommand e.caps e.items))
      → Finishes (Read n k 1 c) (on_read e c) (Next n k)
  unfolding on_read
  Finishes-on_read n k none = record { at = λ s h. tt }
  Finishes-on_read zero k (some c) = record { at = λ s h. absurd h }
  Finishes-on_read (suc n) k (some c) =
      Finishes-bind {Q = λ _. Attended e n k 1} {m = Awaits (name e.caps e.items c.command)}
        (Finishes-awaits n k (name e.caps e.items c.command))
        (λ _. Finishes-pure (λ _. Attended e n k 1) c)

  pub Finishes-next_cmd : (n k : ℕ) → Finishes (Attended e n k 1) (next_cmd e) (Next n k)
  unfolding next_cmd
  Finishes-next_cmd n k =
      Finishes-bind {m = Consumes} (Finishes-consumes n k)
        (λ _. Finishes-bind (Finishes-Read n k 1) (Finishes-on_read n k))
