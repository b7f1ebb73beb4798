-- ===== src/Imap/Session/Awaits.antt =====
-- What a call of `next_cmd` keeps, for a caller that says what a look into the queue does.
use brev.Base.{
  ℕ, zero, suc, ◌≡◌, refl, Bool, true, false, Option, none, some, [], ◌∷◌, length, Bytes,
}
use brev.Io.Laws.{Triple, Triple-bind, Triple-pure, Triple-weaken, Triple-stall}
use brev.Imap.Response.{Tag}
use brev.Imap.Command.{CommandName, TaggedCommand, name}
use brev.Imap.Queue.{Commands, ready, wait, must_wait_before}
use brev.Imap.Ops.{SelectedState, OpResponse, OpResult, SelectResult, done, select_to_string}
use brev.Imap.Reader.{read_tagged}
use brev.Imap.Session.{
  Environment, State, not_authenticated, logout, authenticated, selected, Payload, ImapSession, Act,
  on_queue, become, respond_with_tag,
}
use brev.Imap.Session.Rules.{Frame, Framed-wire, Framed-respond}
use brev.Imap.Session.Loop.{
  consume_select, consume_ready, on_ready, consume_all_within, wait_on, wait_all_within, on_read,
  next_cmd,
}

module _ (e : Environment) where
  -- `V` while results are consumed, `P` once no command is in progress and `E` when the call ends
  -- without a command.
  pub record Awaits (V P E : ImapSession e → Type 0) : Type 0 where
    pub frame : Frame e V E
    pub looks : Triple V (on_queue e (ready (OpResult e.attributes))) (λ _. V) E
    pub waits : Triple V (on_queue e (wait (OpResult e.attributes))) (λ _. V) E
    pub settled : (s : ImapSession e) → V s → s.queue.commands ≡ [] → P s

module _ (e : Environment) {V P E : ImapSession e → Type 0} (a : Awaits e V P E) where
  abbrev R : Type 0
  R = OpResult e.attributes

  abbrev Keeps : Act e (Unit {0}) → Type 0
  Keeps m = Triple V m (λ _. V) E

  Framed-respond_with_tag : (o : Option Bytes) → Keeps (respond_with_tag e o)
  unfolding respond_with_tag
  Framed-respond_with_tag none = record { at = a.frame.ended }
  Framed-respond_with_tag (some text) = Framed-wire e a.frame _

  -- A mailbox is selected for the client who is authenticated.
  Framed-consume_select :
      (tag : Tag) (r : SelectResult e.attributes) (st : State)
      → Triple (λ s. V s × (s.state ≡ st)) (consume_select e tag r st) (λ _. V) E
  unfolding consume_select
  Framed-consume_select tag r (authenticated who) =
      let chosen : SelectedState = record {
        mailbox = r.mailbox.name;
        read_only = r.read_only;
        identity = who;
      } in
      let first : Triple (λ s. V s × (s.state ≡ authenticated who)) (become e (selected chosen))
          (λ _. V) E =
        record { at = λ s h. a.frame.selects s chosen (h.1) (h.0) } in
      Triple-bind first (λ _. Framed-respond_with_tag (some (select_to_string e.attributes r tag)))
  Framed-consume_select tag r not_authenticated = record { at = λ s h. a.frame.ended s (h.0) }
  Framed-consume_select tag r logout = record { at = λ s h. a.frame.ended s (h.0) }
  Framed-consume_select tag r (selected chosen) = record { at = λ s h. a.frame.ended s (h.0) }

  Framed-consume_ready : (p : Payload e) → Keeps (consume_ready e p)
  unfolding consume_ready
  Framed-consume_ready (tag, done (OpResponse.select r)) = record {
    at = λ s v. (Framed-consume_select tag r s.state).at s (v, refl);
  }
  Framed-consume_ready (tag, done OpResponse.fetch) = Framed-respond_with_tag _
  Framed-consume_ready (tag, done OpResponse.create) = Framed-respond_with_tag _
  Framed-consume_ready (tag, done (OpResponse.list found)) = Framed-respond_with_tag _
  Framed-consume_ready (tag, OpResult.failed err) = Framed-respond e a.frame _

  Framed-on_ready :
      (again : Act e (Unit {0})) (o : Option (Payload e)) → Keeps again → Keeps (on_ready e again o)
  unfolding on_ready
  Framed-on_ready again none t = Triple-pure (λ _. V) tt
  Framed-on_ready again (some p) t = Triple-bind (Framed-consume_ready p) (λ _. t)

  Framed-consume_all : (n : ℕ) → Keeps (consume_all_within e n)
  unfolding consume_all_within
  Framed-consume_all zero = Triple-stall V (λ _. V) a.frame.ended
  Framed-consume_all (suc n) =
      Triple-bind a.looks (λ o. Framed-on_ready (consume_all_within e n) o (Framed-consume_all n))

  wait_on-Awaits :
      (again : Act e (Unit {0})) (next : CommandName) (b : Bool)
      → Triple V again (λ _. P) E
      → Triple (λ s. V s × (must_wait_before R s.queue next ≡ b)) (wait_on e again b) (λ _. P) E
  unfolding wait_on
  wait_on-Awaits again next false t = record {
    at = λ s h. a.settled s (h.0) (none_left s.queue.commands (h.1));
  }
    where
      none_left : (cs : Commands) → (elim cs [ [] ↦ false | c ∷ rest ↦ true ]) ≡ false → cs ≡ []
      none_left [] h = refl
      none_left (c ∷ cs) h = cc
  wait_on-Awaits again next true t =
      Triple-bind (Triple-weaken _ (λ s h. h.0) a.waits)
        (λ p. Triple-bind (Framed-consume_ready p) (λ _. t))

  wait_all-Awaits : (n : ℕ) (next : CommandName) → Triple V (wait_all_within e n next) (λ _. P) E
  unfolding wait_all_within
  wait_all-Awaits zero next = Triple-stall V (λ _. P) a.frame.ended
  wait_all-Awaits (suc n) next = record {
    at = λ s h.
        (wait_on-Awaits (wait_all_within e n next) next (must_wait_before R s.queue next)
            (wait_all-Awaits n next)).at
          s (h, refl);
  }

  on_read-Awaits : (c : Option (TaggedCommand e.caps e.items)) → Triple V (on_read e c) (λ _. P) E
  unfolding on_read
  on_read-Awaits none = record { at = a.frame.ended }
  on_read-Awaits (some c) =
      Triple-bind
        {m = λ s.
          wait_all_within e (suc (length s.queue.commands)) (name e.caps e.items c.command) s}
        (record {
          at = λ s h.
              (wait_all-Awaits (suc (length s.queue.commands)) (name e.caps e.items c.command)).at s
                h;
        })
        (λ _. Triple-pure (λ _. P) c)

  pub next_cmd-Awaits : Triple V (next_cmd e) (λ _. P) E
  unfolding next_cmd
  next_cmd-Awaits =
      Triple-bind {m = λ s. consume_all_within e (suc (length s.queue.rx)) s}
        (record { at = λ s h. (Framed-consume_all (suc (length s.queue.rx))).at s h })
        (λ _. Triple-bind (Framed-wire e a.frame (read_tagged e.caps e.items e.nom)) on_read-Awaits)
