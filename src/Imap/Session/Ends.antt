-- ===== src/Imap/Session/Ends.antt =====
-- A call of `next_op` ends: the fuel of its loops is enough, and no command makes the server hang.
use brev.Base.{
  ℕ, zero, suc, ◌<◌, ◌≢◌, Bool, true, false, Option, none, some, ◌++◌, arith, length, codes,
}
use brev.Io.{Outcome, returned, failed, stalled, panicked, pure, ◌>>=◌, ◌>>◌}
use brev.Io.Finishes.{Ended, Finishes, Finishes-pure, Finishes-bind}
use brev.Line.Finishes.{Finishes-write_flush}
use brev.Imap.Response.{Tag}
use brev.Imap.Capability.{capabilities_to_string}
use brev.Imap.Command.{Command, TaggedCommand}
use brev.Imap.Ops.{Operation}
use brev.Imap.Sequence.{SequenceSet}
use brev.Imap.Fetch.{FetchItems}
use brev.Imap.Session.{
  Environment, State, not_authenticated, logout, authenticated, selected, ImapSession, Act,
  capabilities, greet,
}
use brev.Imap.Session.Finishes.{
  Attended, Attends, Finishes-wire, Finishes-respond, Finishes-handle_capability,
  Finishes-handle_logout, Finishes-handle_starttls, Finishes-handle_authenticate,
  Finishes-handle_login, Finishes-handle_enable,
}
use brev.Imap.Session.Loop.{
  hand_out, handle_select, handle_fetch, handle, is_logout, after_handle, turn, loop_within,
  greet_once, next_op,
}
use brev.Imap.Session.Reads.{Next, Finishes-next_cmd}

module _ (e : Environment) where
  -- A turn hands out an operation, or goes on in the same state of the environment.
  abbrev Goes : ℕ → ℕ → Option Operation → ImapSession e → Type 0
  Goes n k none s = Attended e n k 1 s
  Goes n k (some op) s = Unit

  then-Goes :
      {n k : ℕ} {m : Act e (Unit {0})}
      → Attends e n k 1 m
      → Finishes (Attended e n k 1) (m >> pure none) (Goes n k)
  then-Goes {n} {k} t = Finishes-bind t (λ _. Finishes-pure (Goes n k) none)

  module _ {n k : ℕ} where
    Finishes-hand_out : (op : Operation) → Finishes (Attended e n k 1) (hand_out e op) (Goes n k)
    unfolding hand_out
    Finishes-hand_out op = record { at = λ s h. tt }

    Finishes-handle_select :
        (tag : Tag) (st : State) → Finishes (Attended e n k 1) (handle_select e tag st) (Goes n k)
    unfolding handle_select
    Finishes-handle_select tag not_authenticated = then-Goes (Finishes-respond e _)
    Finishes-handle_select tag (authenticated who) = record { at = λ s h. tt }
    Finishes-handle_select tag (selected chosen) = Finishes-pure (Goes n k) none
    Finishes-handle_select tag logout = record { at = λ s h. tt }

    Finishes-handle_fetch :
        (tag : Tag) (is_uid : Bool) (set : SequenceSet) (wanted : FetchItems) (st : State)
        → Finishes (Attended e n k 1) (handle_fetch e tag is_uid set wanted st) (Goes n k)
    unfolding handle_fetch
    Finishes-handle_fetch tag is_uid set wanted (selected chosen) =
        Finishes-hand_out (Operation.fetch chosen is_uid set wanted tag)
    Finishes-handle_fetch tag is_uid set wanted _ = then-Goes (Finishes-respond e _)

    Finishes-handle :
        (tag : Tag) (c : Command e.caps e.items)
        → Finishes (Attended e n k 1) (handle e tag c) (Goes n k)
    unfolding handle
    Finishes-handle tag Command.capability = then-Goes (Finishes-handle_capability e tag)
    Finishes-handle tag Command.noop = then-Goes (Finishes-respond e _)
    Finishes-handle tag Command.logout = then-Goes (Finishes-handle_logout e tag)
    Finishes-handle tag Command.starttls = then-Goes (Finishes-handle_starttls e tag)
    Finishes-handle tag (Command.authenticate m initial) =
        then-Goes
          (record { at = λ s h. (Finishes-handle_authenticate e tag m initial s.state).at s h })
    Finishes-handle tag (Command.login username password) =
        then-Goes
          (record { at = λ s h. (Finishes-handle_login e tag username password s.state).at s h })
    Finishes-handle tag (Command.enable wanted) = then-Goes (Finishes-handle_enable e tag wanted)
    Finishes-handle tag (Command.select mailbox) = record {
      at = λ s h. (Finishes-handle_select tag s.state).at s h;
    }
    Finishes-handle tag (Command.examine mailbox) =
        Finishes-hand_out (Operation.select mailbox true tag)
    Finishes-handle tag (Command.list reference mailbox) =
        Finishes-hand_out (Operation.list reference mailbox tag)
    Finishes-handle tag (Command.fetch is_uid set wanted) = record {
      at = λ s h. (Finishes-handle_fetch tag is_uid set wanted s.state).at s h;
    }
    Finishes-handle tag _ = record { at = λ s h. tt }

  abbrev AnyEnd : {A : Type 0} → A → ImapSession e → Type 0
  AnyEnd a s = Unit

  Finishes-after_handle :
      (n k : ℕ) (again : Act e (Option Operation)) (r : Option Operation)
      → Finishes (Attended e n k 1) again AnyEnd
      → Finishes (Goes n k r) (after_handle e again r) AnyEnd
  unfolding after_handle
  Finishes-after_handle n k again none t = t
  Finishes-after_handle n k again (some op) t = record { at = λ s h. tt }

  Finishes-turn :
      (n k : ℕ) (again : Act e (Option Operation)) (out : Bool)
      → ((m : ℕ) → m < n → Finishes (Attended e m k 1) again AnyEnd)
      → Finishes (Attended e n k 1) (turn e again out) AnyEnd
  unfolding turn
  Finishes-turn n k again true t = record { at = λ s h. tt }
  Finishes-turn n k again false t = Finishes-bind (Finishes-next_cmd e n k) (λ c. on_next n c t)
    where
      on_next :
          (n : ℕ) (c : TaggedCommand e.caps e.items)
          → ((m : ℕ) → m < n → Finishes (Attended e m k 1) again AnyEnd)
          → Finishes (Next e n k c) (handle e c.tag c.command >>= after_handle e again) AnyEnd
      on_next zero c t = record { at = λ s h. absurd h }
      on_next (suc n) c t =
          Finishes-bind (Finishes-handle c.tag c.command)
            (λ r. Finishes-after_handle n k again r (t n (omega arith)))

  Finishes-loop_within :
      (fuel n k : ℕ) → n < fuel → Finishes (Attended e n k 1) (loop_within e fuel) AnyEnd
  unfolding loop_within
  Finishes-loop_within zero n k less = absurd (omega arith)
  Finishes-loop_within (suc fuel) n k less = record {
    at = λ s h.
        (Finishes-turn n k (loop_within e fuel) (is_logout e s.state)
            (λ m l. Finishes-loop_within fuel m k (omega arith))).at
          s h;
  }

  Finishes-greet : (n k : ℕ) → Attends e n k 1 (greet e)
  unfolding greet
  Finishes-greet n k = record {
    at = λ s h.
        (Finishes-wire e (
            Finishes-write_flush (
              codes "* OK ["
              ++ (capabilities_to_string e.caps (capabilities e s)
                  ++ codes "] Server ready\r\n")))).at
          s h;
  }

  Finishes-greet_once : (n k : ℕ) (greeted : Bool) → Attends e n k 1 (greet_once e greeted)
  unfolding greet_once
  Finishes-greet_once n k true = Finishes-pure (λ _. Attended e n k 1) tt
  Finishes-greet_once n k false = Finishes-bind (Finishes-greet n k) (λ _. record {
    at = λ s h. record {
      calm = h.calm;
      looks = h.looks;
      busy = h.busy;
      single = h.single;
      arrives = h.arrives;
    };
  })

  Finishes-next_op : (n k : ℕ) → Finishes (Attended e n k 1) (next_op e) AnyEnd
  unfolding next_op
  Finishes-next_op n k =
      Finishes-bind {Q = λ _. Attended e n k 1} {m = λ s. greet_once e s.greeted s}
        (record { at = λ s h. (Finishes-greet_once n k s.greeted).at s h })
        (λ _. record {
          at = λ s h.
              (Finishes-loop_within (suc (suc (length s.connection.incoming)))
                  (length s.connection.incoming) k (omega arith)).at
                s
                (record {
                  calm = record {
                    prompt = h.calm.prompt;
                    closes = h.calm.closes;
                    fewer = omega arith;
                  };
                  looks = h.looks;
                  busy = h.busy;
                  single = h.single;
                  arrives = h.arrives;
                });
        })

  not_stalled :
      {A : Type 0} (Q : A → ImapSession e → Type 0) (o : Outcome A) (s : ImapSession e)
      → Ended Q o s
      → o ≢ stalled
  not_stalled Q (returned a) s h z = cc
  not_stalled Q (failed y) s h z = cc
  not_stalled Q stalled s h z = absurd h
  not_stalled Q panicked s h z = cc

  -- Where the client closes the connection in the end, every write, flush, shutdown and handshake is
  -- answered in time, and at most one command is in progress, whose result will arrive: a call of
  -- `next_op` does not wait for ever, whatever the client sends. It returns, fails or panics.
  pub next_op_ends : (n k : ℕ) (s : ImapSession e) → Attended e n k 1 s → (next_op e s).0 ≢ stalled
  next_op_ends n k s h =
      not_stalled AnyEnd (next_op e s).0 (next_op e s).1 ((Finishes-next_op n k).at s h)
