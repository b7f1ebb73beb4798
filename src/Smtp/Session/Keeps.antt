-- ===== src/Smtp/Session/Keeps.antt =====
-- What every action of the session keeps: the invariant, and how it is carried through an action.
use brev.Base.{◌≡◌, refl, ◌≢◌, Bool, true, false, Option, none, some, [], Bytes}
use brev.Io.{World, Io, Async, Outcome, returned, failed, stalled, panicked, pure, ◌>>◌}
use brev.Io.Laws.{Post, Triple, Triple-bind, Triple-pure, Triple-weaken}
use brev.Line.{write_flush, upgrade, is_tls}
use brev.Smtp.Session.{
  Crates, Envelope, Incoming, by_data, by_bdat, Session, on_connection, say, modify, reset_mail_txn,
  handle_ehlo, say_ehlo, starttls_on, handle_starttls, handle_mail, handle_rcpt, handle_auth,
}

module _ (k : Crates) where
  -- A transaction needs a HELO or EHLO, and no client is ever authenticated.
  pub record IsValid (s : Session k) : Type 0 where
    pub helo_first : s.helo_domain ≡ none → s.envelope ≡ none
    pub anonymous : s.identity ≡ none

  abbrev pub envelope_of : Incoming k → Envelope k
  envelope_of (by_data e) = e
  envelope_of (by_bdat e size last) = e

  -- After a turn: a message is handed over with a recipient, and its transaction is over.
  pub record Turned (r : Option (Incoming k)) (s : Session k) : Type 0 where
    pub valid : IsValid s
    pub handed :
        (m : Incoming k) → r ≡ some m → ((envelope_of m).recipients ≢ []) × (s.envelope ≡ none)

  -- The property does not look at the connection.
  abbrev pub Detached : (Session k → Type 0) → Type 0
  Detached P = (s : Session k) (w : World) → P s → P (record s { connection = w })

  pub IsValid-detached : Detached IsValid
  IsValid-detached s w h = record { helo_first = h.helo_first; anonymous = h.anonymous }

  pub Post-all :
      {A : Type 0} (P : Session k → Type 0) (o : Outcome A) (s : Session k)
      → P s
      → Post (λ _. P) P o s
  Post-all P (returned a) s h = h
  Post-all P (failed e) s h = h
  Post-all P stalled s h = h
  Post-all P panicked s h = h

  pub Triple-connection :
      {A : Type 0} {P : Session k → Type 0} (io : Io A)
      → Detached P
      → Triple P (on_connection k io) (λ _. P) P
  unfolding on_connection
  Triple-connection {P = P} io d = record {
    at = λ s h. let (o, w) = io s.connection in Post-all P o _ (d s w h);
  }

  pub Triple-say : (text : Bytes) → Triple IsValid (say k text) (λ _. IsValid) IsValid
  unfolding say
  Triple-say text = Triple-connection _ IsValid-detached

  -- The same with more than the invariant.
  module _ {P : Session k → Type 0} (detached : Detached P)
      (valid : (s : Session k) → P s → IsValid s) where
    Post-IsValid : {A : Type 0} (o : Outcome A) (s : Session k) → P s → Post (λ _. P) IsValid o s
    Post-IsValid (returned a) s h = h
    Post-IsValid (failed e) s h = valid s h
    Post-IsValid stalled s h = valid s h
    Post-IsValid panicked s h = valid s h

    pub Triple-said : (text : Bytes) → Triple P (say k text) (λ _. P) IsValid
    unfolding say on_connection
    Triple-said text = record {
      at = λ s h. let (o, w) = write_flush text s.connection in Post-IsValid o _ (detached s w h);
    }

  pub Triple-modify :
      {P Q E : Session k → Type 0} {f : Session k → Session k}
      → ((s : Session k) → P s → Q (f s))
      → Triple P (modify k f) (λ _. Q) E
  Triple-modify h = record { at = h }

  pub Turned-some :
      (m : Incoming k) (s : Session k)
      → IsValid s
      → ((envelope_of m).recipients ≢ []) × (s.envelope ≡ none)
      → Turned (some m) s
  Turned-some m s h r = record { valid = h; handed = λ n p. let same : m ≡ n = cc in rw (← same) r }

  pub Turned-none : (s : Session k) → IsValid s → Turned none s
  Turned-none s h = record { valid = h; handed = λ m e. cc }

  pub then_turn :
      {m : Async (Session k) (Unit {0})}
      → Triple IsValid m (λ _. IsValid) IsValid
      → Triple IsValid (m >> pure none) Turned IsValid
  then_turn t = Triple-bind t (λ _. Triple-weaken IsValid Turned-none (Triple-pure Turned none))

  -- The action reads a field of the session first.
  pub Triple-read :
      {A X : Type 0} {Q : A → Session k → Type 0} (g : Session k → X) (m : X → Async (Session k) A)
      → ((x : X) → Triple (λ s. IsValid s × (g s ≡ x)) (m x) Q IsValid)
      → Triple IsValid (λ s. m (g s) s) Q IsValid
  Triple-read g m t = record { at = λ s h. (t (g s)).at s (h, refl) }

  pub forget :
      {A X : Type 0} {g : Session k → X} {x : X} {m : Async (Session k) A}
      {Q : A → Session k → Type 0}
      → Triple IsValid m Q IsValid
      → Triple (λ s. IsValid s × (g s ≡ x)) m Q IsValid
  forget t = Triple-weaken _ (λ s h. h.0) t

  abbrev pub Keeps : Async (Session k) (Unit {0}) → Type 0
  Keeps m = Triple IsValid m (λ _. IsValid) IsValid

  -- Saying something after an assignment that keeps the invariant.
  pub modify-say :
      {P : Session k → Type 0} {f : Session k → Session k} (text : Bytes)
      → ((s : Session k) → P s → IsValid (f s))
      → Triple P (modify k f >> say k text) (λ _. IsValid) IsValid
  modify-say text h = Triple-bind (Triple-modify h) (λ _. Triple-say text)

  pub handle_mail-fields :
      (from : k.mail.Address) (d : Option Bytes) (e : Option (Envelope k))
      → Triple
          (λ s. IsValid s × (s.helo_domain ≡ d) × (s.envelope ≡ e))
          (handle_mail k from d e)
          (λ _. IsValid)
          IsValid
  unfolding handle_mail
  handle_mail-fields from none e = Triple-weaken _ (λ s h. h.0) (Triple-say _)
  handle_mail-fields from (some d) (some e) = Triple-weaken _ (λ s h. h.0) (Triple-say _)
  handle_mail-fields from (some d) none =
      modify-say _ λ s h. record { helo_first = λ z. cc (z, h.1); anonymous = h.0.anonymous }

  pub handle_mail-IsValid :
      (from : k.mail.Address) → Keeps (λ s. handle_mail k from s.helo_domain s.envelope s)
  handle_mail-IsValid from = record {
    at = λ s h. (handle_mail-fields from s.helo_domain s.envelope).at s (h, refl, refl);
  }

  pub handle_rcpt-field :
      (to : k.mail.Address) (e : Option (Envelope k))
      → Triple (λ s. IsValid s × (s.envelope ≡ e)) (handle_rcpt k to e) (λ _. IsValid) IsValid
  unfolding handle_rcpt
  handle_rcpt-field to none = forget (Triple-say _)
  handle_rcpt-field to (some e) =
      modify-say _
        λ s h. record { helo_first = λ z. cc (h.0.helo_first z, h.1); anonymous = h.0.anonymous }

  pub handle_auth-IsValid : (e : Option (Envelope k)) (i : Option Bytes) → Keeps (handle_auth k e i)
  unfolding handle_auth
  handle_auth-IsValid (some e) i = Triple-say _
  handle_auth-IsValid none (some i) = Triple-say _
  handle_auth-IsValid none none = Triple-say _

  pub new_hello :
      (domain : Bytes) (s : Session k)
      → IsValid s
      → IsValid (record (reset_mail_txn k s) { helo_domain = some domain })
  new_hello domain s h = record { helo_first = λ z. refl; anonymous = h.anonymous }

  pub say_ehlo-IsValid : Keeps (say_ehlo k)
  unfolding say_ehlo
  say_ehlo-IsValid = record { at = λ s h. (Triple-say _).at s h }

  pub handle_ehlo-IsValid : (domain : Bytes) → Keeps (handle_ehlo k domain)
  unfolding handle_ehlo
  handle_ehlo-IsValid domain =
      Triple-bind (Triple-modify {P = IsValid} {Q = IsValid} {E = IsValid} (new_hello domain))
        (λ _. say_ehlo-IsValid)

  pub starttls_on-IsValid : (tls configured : Bool) → Keeps (starttls_on k tls configured)
  unfolding starttls_on
  starttls_on-IsValid true configured = Triple-say _
  starttls_on-IsValid false false = Triple-say _
  starttls_on-IsValid false true = Triple-bind (Triple-say _) λ _.
      Triple-bind (Triple-connection upgrade IsValid-detached) λ _.
        Triple-modify {P = IsValid} {Q = IsValid} {E = IsValid}
          (λ s h. record { helo_first = λ z. refl; anonymous = refl })

  pub handle_starttls-IsValid : Keeps (handle_starttls k)
  unfolding handle_starttls
  handle_starttls-IsValid = record {
    at = λ s h. (starttls_on-IsValid (is_tls s.connection) s.config.tls).at s h;
  }
