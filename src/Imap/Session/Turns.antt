-- ===== src/Imap/Session/Turns.antt =====
-- What a call of `next_op` keeps, for a caller that says what holds before a command is read, once it
-- is read, and when the call ends.
use brev.Base.{ℕ, zero, suc, ◌≡◌, refl, Bool, true, false, Option, none, some, length, codes, ◌++◌}
use brev.Io.{pure, ◌>>◌}
use brev.Io.Laws.{Triple, Triple-bind, Triple-pure, Triple-weaken, Triple-stall}
use brev.Line.{write_flush}
use brev.Imap.Response.{Tag}
use brev.Imap.Command.{Command}
use brev.Imap.Capability.{capabilities_to_string}
use brev.Imap.Queue.{insert}
use brev.Imap.Ops.{Operation, operation_tag, operation_name, OpResult}
use brev.Imap.Sequence.{SequenceSet}
use brev.Imap.Fetch.{FetchItems}
use brev.Imap.Session.{
  Environment, State, not_authenticated, logout, authenticated, selected, ImapSession, Act,
  capabilities, greet,
}
use brev.Imap.Session.Rules.{Frame, Framed-wire, Framed-respond}
use brev.Imap.Session.Handlers.{
  Keeps-handle_capability, Keeps-handle_logout, Keeps-handle_starttls, Keeps-handle_authenticate,
  Keeps-handle_login, Keeps-handle_enable,
}
use brev.Imap.Session.Loop.{
  hand_out, handle_select, handle_fetch, handle, is_logout, after_handle, turn, loop_within,
  greet_once, next_cmd, next_op,
}

module _ (e : Environment) where
  -- The state in which an operation is handed out.
  abbrev pub FitsState : Operation → State → Type 0
  FitsState (Operation.fetch chosen is_uid set wanted tag) st = st ≡ selected chosen
  FitsState _ st = Unit

  -- The session with the operation's command in its queue.
  abbrev pub inserted : Operation → ImapSession e → ImapSession e
  inserted op s = record s {
    queue = insert (OpResult e.attributes) (operation_tag op) (operation_name op) s.queue;
  }

  -- `V` before a command is read, `P` once it is read, `Q` when the call returns and `E` when it ends
  -- in another way.
  pub record Turns (V P E : ImapSession e → Type 0) (Q : Option Operation → ImapSession e → Type 0)
      : Type 0 where
    pub frame : Frame e P E
    pub waits : Frame e V E
    pub greets : (s : ImapSession e) → V s → V (record s { greeted = true })
    pub begins : (s : ImapSession e) → V s → Q none s
    pub left : (s : ImapSession e) → Q none s → V s
    pub next : Triple V (next_cmd e) (λ _. P) E
    pub turned : (s : ImapSession e) → P s → Q none s
    pub handed :
        (op : Operation) (s : ImapSession e)
        → P s
        → FitsState op s.state
        → Q (some op) (inserted op s)

module _ (e : Environment) {V P E : ImapSession e → Type 0}
    {Q : Option Operation → ImapSession e → Type 0} (t : Turns e V P E Q) where
  then_turn : {m : Act e (Unit {0})} → Triple P m (λ _. P) E → Triple P (m >> pure none) Q E
  then_turn done = Triple-bind done (λ _. Triple-weaken P t.turned (Triple-pure Q none))

  hand_out-Turns : (op : Operation) → Triple (λ s. P s × FitsState e op s.state) (hand_out e op) Q E
  unfolding hand_out insert
  hand_out-Turns op = record { at = λ s h. t.handed op s (h.0) (h.1) }

  handle_select-Turns : (tag : Tag) (st : State) → Triple P (handle_select e tag st) Q E
  unfolding handle_select
  handle_select-Turns tag not_authenticated = then_turn (Framed-respond e t.frame _)
  handle_select-Turns tag (authenticated who) = record { at = t.frame.ended }
  handle_select-Turns tag (selected chosen) = record { at = λ s h. t.turned s h }
  handle_select-Turns tag logout = record { at = t.frame.ended }

  handle_fetch-Turns :
      (tag : Tag) (is_uid : Bool) (set : SequenceSet) (wanted : FetchItems) (st : State)
      → Triple (λ s. P s × (s.state ≡ st)) (handle_fetch e tag is_uid set wanted st) Q E
  unfolding handle_fetch
  handle_fetch-Turns tag is_uid set wanted (selected chosen) =
      hand_out-Turns (Operation.fetch chosen is_uid set wanted tag)
  handle_fetch-Turns tag is_uid set wanted _ =
      Triple-weaken _ (λ s h. h.0) (then_turn (Framed-respond e t.frame _))

  handle-Turns : (tag : Tag) (c : Command e.caps e.items) → Triple P (handle e tag c) Q E
  unfolding handle
  handle-Turns tag Command.capability = then_turn (Keeps-handle_capability e t.frame tag)
  handle-Turns tag Command.noop = then_turn (Framed-respond e t.frame _)
  handle-Turns tag Command.logout = then_turn (Keeps-handle_logout e t.frame tag)
  handle-Turns tag Command.starttls = then_turn (Keeps-handle_starttls e t.frame tag)
  handle-Turns tag (Command.authenticate m initial) =
      then_turn
        (record { at = λ s h. (Keeps-handle_authenticate e t.frame tag m initial s.state).at s h })
  handle-Turns tag (Command.login username password) =
      then_turn
        (record { at = λ s h. (Keeps-handle_login e t.frame tag username password s.state).at s h })
  handle-Turns tag (Command.enable wanted) = then_turn (Keeps-handle_enable e t.frame tag wanted)
  handle-Turns tag (Command.select mailbox) = record {
    at = λ s h. (handle_select-Turns tag s.state).at s h;
  }
  handle-Turns tag (Command.examine mailbox) =
      Triple-weaken _ (λ s h. (h, tt)) (hand_out-Turns (Operation.select mailbox true tag))
  handle-Turns tag (Command.list reference mailbox) =
      Triple-weaken _ (λ s h. (h, tt)) (hand_out-Turns (Operation.list reference mailbox tag))
  handle-Turns tag (Command.fetch is_uid set wanted) = record {
    at = λ s h. (handle_fetch-Turns tag is_uid set wanted s.state).at s (h, refl);
  }
  handle-Turns tag _ = record { at = t.frame.ended }

  after_handle-Turns :
      (again : Act e (Option Operation)) (r : Option Operation)
      → Triple V again Q E
      → Triple (Q r) (after_handle e again r) Q E
  unfolding after_handle
  after_handle-Turns again none u = Triple-weaken (Q none) t.left u
  after_handle-Turns again (some op) u = Triple-pure Q (some op)

  turn-Turns :
      (again : Act e (Option Operation)) (out : Bool)
      → Triple V again Q E
      → Triple V (turn e again out) Q E
  unfolding turn
  turn-Turns again true u = Triple-weaken V t.begins (Triple-pure Q none)
  turn-Turns again false u =
      Triple-bind t.next
        (λ c. Triple-bind (handle-Turns c.tag c.command) (λ r. after_handle-Turns again r u))

  loop_within-Turns : (n : ℕ) → Triple V (loop_within e n) Q E
  unfolding loop_within
  loop_within-Turns zero = Triple-stall V Q t.waits.ended
  loop_within-Turns (suc n) = record {
    at = λ s h. (turn-Turns (loop_within e n) (is_logout e s.state) (loop_within-Turns n)).at s h;
  }

  greet-Turns : Triple V (greet e) (λ _. V) E
  unfolding greet
  greet-Turns = record {
    at = λ s h.
        (Framed-wire e t.waits (
            write_flush (
              codes "* OK ["
              ++ (capabilities_to_string e.caps (capabilities e s)
                  ++ codes "] Server ready\r\n")))).at
          s h;
  }

  greet_once-Turns : (greeted : Bool) → Triple V (greet_once e greeted) (λ _. V) E
  unfolding greet_once
  greet_once-Turns true = Triple-pure (λ _. V) tt
  greet_once-Turns false = Triple-bind greet-Turns (λ _. record { at = t.greets })

  pub next_op-Turns : Triple V (next_op e) Q E
  unfolding next_op
  next_op-Turns =
      Triple-bind (record { at = λ s h. (greet_once-Turns s.greeted).at s h })
        (λ _. record {
          at = λ s h. (loop_within-Turns (suc (suc (length s.connection.incoming)))).at s h;
        })
