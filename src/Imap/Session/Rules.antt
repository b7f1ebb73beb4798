-- ===== src/Imap/Session/Rules.antt =====
-- What holds of an IMAP session at every point of the dialogue, and the rules for its actions.
use brev.Base.{◌≤◌, ◌≡◌, ap, ◌∙◌, Option, none, some, [], arith, length, Bytes}
use brev.Io.{World, Io, Outcome, returned, failed, stalled, panicked}
use brev.Io.Laws.{Post, Post-state, Triple}
use brev.Imap.Response.{TaggedStatusResponse}
use brev.Imap.Authenticate.Approved.{Accepts, Any}
use brev.Imap.Ops.{SelectedState}
use brev.Imap.Session.{
  Environment, State, not_authenticated, logout, authenticated, selected, ImapSession, Act, on_wire,
  become, respond, write_untagged,
}

-- Who the client is.
abbrev pub holder : State → Option Bytes
holder not_authenticated = none
holder logout = none
holder (authenticated who) = some who
holder (selected chosen) = some chosen.identity

module _ (e : Environment) where
  -- The validator has accepted the client's identity, and at most one command is in progress.
  pub record IsValid (s : ImapSession e) : Type 0 where
    pub accepted : (who : Bytes) → holder s.state ≡ some who → Accepts e.validate who
    pub single : length s.queue.commands ≤ 1

  -- The same while no command is in progress.
  pub record IsIdle (s : ImapSession e) : Type 0 where
    pub accepted : (who : Bytes) → holder s.state ≡ some who → Accepts e.validate who
    pub idle : s.queue.commands ≡ []

  pub IsIdle-IsValid : (s : ImapSession e) → IsIdle s → IsValid s
  IsIdle-IsValid s h = record { accepted = h.accepted; single = rw h.idle (omega arith) }

  -- What holds of a session whatever happens on its connection and whoever the validator accepts, and
  -- what is left of it when an action does not return.
  pub record Frame (P E : ImapSession e → Type 0) : Type 0 where
    pub detached : (s : ImapSession e) (w : World) → P s → P (record s { connection = w })
    pub becomes :
        (s : ImapSession e) (st : State)
        → ((who : Bytes) → holder st ≡ some who → Accepts e.validate who)
        → P s
        → P (record s { state = st })
    pub selects :
        (s : ImapSession e) (chosen : SelectedState)
        → s.state ≡ authenticated chosen.identity
        → P s
        → P (record s { state = selected chosen })
    pub ended : (s : ImapSession e) → P s → E s

  module _ {P E : ImapSession e → Type 0} (f : Frame P E) where
    pub Framed-wire : {A : Type 0} (io : Io A) → Triple P (on_wire e io) (λ _. P) E
    unfolding on_wire
    Framed-wire io = record {
      at = λ s h.
          let (o, w) = io s.connection in
          let after : P (record s { connection = w }) = f.detached s w h in
          Post-state P E o (record s { connection = w }) after
            (f.ended (record s { connection = w }) after);
    }

    Post-wire :
        {A : Type 0} (R : A → Type 0) (o : Outcome A) (w : World) (s : ImapSession e)
        → P s
        → Post (λ a w'. R a) Any o w
        → Post (λ a s'. P s' × R a) E o (record s { connection = w })
    Post-wire R (returned a) w s h r = (f.detached s w h, r)
    Post-wire R (failed z) w s h r = f.ended _ (f.detached s w h)
    Post-wire R stalled w s h r = f.ended _ (f.detached s w h)
    Post-wire R panicked w s h r = f.ended _ (f.detached s w h)

    -- An action on the connection, with what is known of its result.
    pub Framed-wire_result :
        {A : Type 0} {R : A → Type 0} {io : Io A}
        → Triple Any io (λ a w. R a) Any
        → Triple P (on_wire e io) (λ a s. P s × R a) E
    unfolding on_wire
    Framed-wire_result {R = R} {io = io} t = record {
      at = λ s h. Post-wire R (io s.connection).0 (io s.connection).1 s h (t.at s.connection tt);
    }

    pub Framed-respond : (r : TaggedStatusResponse) → Triple P (respond e r) (λ _. P) E
    unfolding respond
    Framed-respond r = Framed-wire _

    pub Framed-write_untagged : (text : Bytes) → Triple P (write_untagged e text) (λ _. P) E
    unfolding write_untagged
    Framed-write_untagged text = Framed-wire _

    -- An assignment to the state, for a client whom the validator has accepted or for none.
    pub Framed-become :
        (st : State)
        → ((who : Bytes) → holder st ≡ some who → Accepts e.validate who)
        → Triple P (become e st) (λ _. P) E
    Framed-become st h = record { at = λ s p. f.becomes s st h p }

  pub IsIdle-Frame : Frame IsIdle IsValid
  IsIdle-Frame = record {
    detached = λ s w h. record { accepted = h.accepted; idle = h.idle };
    becomes = λ s st a h. record { accepted = a; idle = h.idle };
    selects = λ s chosen k h. record {
      accepted = λ who p. h.accepted who (ap holder k ∙ p);
      idle = h.idle;
    };
    ended = IsIdle-IsValid;
  }

  pub IsValid-Frame : Frame IsValid IsValid
  IsValid-Frame = record {
    detached = λ s w h. record { accepted = h.accepted; single = h.single };
    becomes = λ s st a h. record { accepted = a; single = h.single };
    selects = λ s chosen k h. record {
      accepted = λ who p. h.accepted who (ap holder k ∙ p);
      single = h.single;
    };
    ended = λ s h. h;
  }

  -- Actions that keep a valid session valid.
  abbrev pub KeepsValid : Act e (Unit {0}) → Type 0
  KeepsValid m = Triple IsValid m (λ _. IsValid) IsValid
