-- ===== src/Imap/Session/Finishes.antt =====
-- `next_op` ends while the client closes the connection in the end and the command in progress is
-- answered: the fuel of its loops is enough.
use brev.Base.{
  ℕ, ◌≤◌, ◌≢◌, Bool, true, false, Option, none, some, List, [], ◌∷◌, ◌++◌, length, Bytes, codes,
  crlf, Bool-cases, inl, inr,
}
use brev.Io.{World, Io, Outcome, returned, failed, stalled, panicked}
use brev.Io.Finishes.{Ended, Finishes, Finishes-bind, Calm}
use brev.Line.{is_tls}
use brev.Line.Finishes.{Finishes-write, Finishes-write_flush, Finishes-shutdown, Finishes-upgrade}
use brev.Auth.{WhichMechanism}
use brev.Auth.Plain.{Validated, valid, invalid}
use brev.Imap.Response.{Tag, TaggedStatusResponse, respond_ok, with_tag, tagged_to_string}
use brev.Imap.Capability.{capabilities_to_string}
use brev.Imap.Queue.{Delivery, delivered, nothing}
use brev.Imap.Authenticate.{Authenticated, identity, mechanism_error}
use brev.Imap.Authenticate.Finishes.{Finishes-authenticate}
use brev.Imap.Ops.{OpResult}
use brev.Imap.Session.{
  Environment, State, not_authenticated, logout, authenticated, ImapSession, Act, on_wire, become,
  capabilities, write_untagged, respond, respond_with_tag, handle_capability, handle_logout,
  starttls_on, handle_starttls, auth_success, on_authenticated, handle_authenticate, on_validated,
  handle_login, handle_enable,
}

module _ (e : Environment) where
  abbrev R : Type 0
  R = OpResult e.attributes

  -- A look into the channel will find a result.
  abbrev pub FindsResult : List (Delivery R) → Type 0
  FindsResult [] = ⊥
  FindsResult (nothing ∷ rest) = FindsResult rest
  FindsResult (delivered tag r ∷ rest) = Unit

  -- At most one command is in progress, and its result will arrive; the client closes the connection
  -- in the end. Left are at most `n` reads, `k` looks into the channel and `c` commands in progress.
  pub record Attended (n k c : ℕ) (s : ImapSession e) : Type 0 where
    pub calm : Calm n s.connection
    pub looks : length s.queue.rx ≤ k
    pub busy : length s.queue.commands ≤ c
    pub single : length s.queue.commands ≤ 1
    pub arrives : s.queue.commands ≢ [] → FindsResult s.queue.rx

  abbrev pub Attends : {A : Type 0} → ℕ → ℕ → ℕ → Act e A → Type 0
  Attends n k c m = Finishes (Attended n k c) m (λ _. Attended n k c)

  module _ {n k c : ℕ} where
    pub Finishes-wire :
        {A : Type 0} {io : Io A} → Finishes (Calm n) io (λ _. Calm n) → Attends n k c (on_wire e io)
    unfolding on_wire
    Finishes-wire {io = io} t = record {
      at = λ s h. ended s (io s.connection).0 (io s.connection).1 h (t.at s.connection h.calm);
    }
      where
        ended :
            {A : Type 0} (s : ImapSession e) (o : Outcome A) (w : World)
            → Attended n k c s
            → Ended (λ _. Calm n) o w
            → Ended (λ _. Attended n k c) o (record s { connection = w })
        ended s (returned a) w h c = record {
          calm = c;
          looks = h.looks;
          busy = h.busy;
          single = h.single;
          arrives = h.arrives;
        }
        ended s (failed z) w h c = tt
        ended s stalled w h c = absurd c
        ended s panicked w h c = tt

    pub Finishes-become : (st : State) → Attends n k c (become e st)
    Finishes-become st = record {
      at = λ s h. record {
        calm = h.calm;
        looks = h.looks;
        busy = h.busy;
        single = h.single;
        arrives = h.arrives;
      };
    }

    pub Finishes-respond : (res : TaggedStatusResponse) → Attends n k c (respond e res)
    unfolding respond
    Finishes-respond res = Finishes-wire (Finishes-write_flush (tagged_to_string res))

    Finishes-write_untagged : (text : Bytes) → Attends n k c (write_untagged e text)
    unfolding write_untagged
    Finishes-write_untagged text = Finishes-wire (Finishes-write (codes "* " ++ (text ++ crlf)))

    pub Finishes-respond_with_tag : (o : Option Bytes) → Attends n k c (respond_with_tag e o)
    unfolding respond_with_tag
    Finishes-respond_with_tag none = record { at = λ s h. tt }
    Finishes-respond_with_tag (some text) = Finishes-wire (Finishes-write_flush text)

    pub Finishes-handle_capability : (tag : Tag) → Attends n k c (handle_capability e tag)
    unfolding handle_capability
    Finishes-handle_capability tag =
        Finishes-bind
          {m = λ s. write_untagged e (capabilities_to_string e.caps (capabilities e s)) s}
          (record {
            at = λ s h.
                (Finishes-write_untagged (capabilities_to_string e.caps (capabilities e s))).at s h;
          })
          (λ _. Finishes-respond _)

    pub Finishes-handle_logout : (tag : Tag) → Attends n k c (handle_logout e tag)
    unfolding handle_logout
    Finishes-handle_logout tag = Finishes-bind (Finishes-become logout) (λ _.
        Finishes-bind (Finishes-write_untagged (codes "BYE")) (λ _.
          Finishes-bind (Finishes-respond (with_tag (respond_ok (codes "Logged out")) tag))
            (λ _. Finishes-wire Finishes-shutdown)))

    Finishes-starttls_on :
        (tag : Tag) (encrypted configured : Bool)
        → Attends n k c (starttls_on e tag encrypted configured)
    unfolding starttls_on
    Finishes-starttls_on tag true configured = Finishes-respond _
    Finishes-starttls_on tag false false = Finishes-respond _
    Finishes-starttls_on tag false true =
        Finishes-bind (Finishes-respond _) (λ _. Finishes-wire Finishes-upgrade)

    pub Finishes-handle_starttls : (tag : Tag) → Attends n k c (handle_starttls e tag)
    unfolding handle_starttls
    Finishes-handle_starttls tag = record {
      at = λ s h. (Finishes-starttls_on tag (is_tls s.connection) s.tls).at s h;
    }

    Finishes-auth_success : (tag : Tag) (who : Bytes) → Attends n k c (auth_success e tag who)
    unfolding auth_success
    Finishes-auth_success tag who =
        Finishes-bind (Finishes-respond _) (λ _. Finishes-become (authenticated who))

    Finishes-on_authenticated :
        (tag : Tag) (a : Authenticated) → Attends n k c (on_authenticated e tag a)
    unfolding on_authenticated
    Finishes-on_authenticated tag (identity who) = Finishes-auth_success tag who
    Finishes-on_authenticated tag (mechanism_error err) = Finishes-respond _

    pub Finishes-handle_authenticate :
        (tag : Tag) (m : WhichMechanism) (initial : Option Bytes) (st : State)
        → Attends n k c (handle_authenticate e tag m initial st)
    unfolding handle_authenticate
    Finishes-handle_authenticate tag m initial not_authenticated =
        Finishes-bind (Finishes-wire (Finishes-authenticate e.base64 e.validate n m initial))
          (Finishes-on_authenticated tag)
    Finishes-handle_authenticate tag m initial _ = Finishes-respond _

    Finishes-on_validated : (tag : Tag) (v : Validated) → Attends n k c (on_validated e tag v)
    unfolding on_validated
    Finishes-on_validated tag (valid who) = Finishes-auth_success tag who
    Finishes-on_validated tag (invalid err) = Finishes-respond _

    pub Finishes-handle_login :
        (tag : Tag) (username password : Bytes) (st : State)
        → Attends n k c (handle_login e tag username password st)
    unfolding handle_login
    Finishes-handle_login tag username password not_authenticated = Finishes-on_validated tag _
    Finishes-handle_login tag username password _ = Finishes-respond _

    pub Finishes-handle_enable :
        (tag : Tag) (wanted : e.caps.Set) → Attends n k c (handle_enable e tag wanted)
    unfolding handle_enable
    Finishes-handle_enable tag wanted = elim (Bool-cases (e.caps.is_empty wanted)) [
      | inl h ↦ rw h (Finishes-respond _)
      | inr h ↦ rw h (Finishes-respond _)
    ]
