-- ===== src/Imap/Session/Handlers.antt =====
-- The handlers of an IMAP session keep what holds of it.
use brev.Base.{◌≡◌, refl, Bool, true, false, Option, Bytes, Bool-cases, inl, inr}
use brev.Io.Laws.{Triple, Triple-bind}
use brev.Line.{shutdown}
use brev.Base.{codes}
use brev.Auth.{WhichMechanism}
use brev.Auth.Plain.{Credentials, Validated, valid, invalid}
use brev.Imap.Response.{respond_ok, with_tag, Tag}
use brev.Imap.Authenticate.{Authenticated, identity, mechanism_error}
use brev.Imap.Authenticate.Approved.{Accepts, Approved, authenticate-Approved}
use brev.Imap.Session.{
  Environment, State, ImapSession, Act, not_authenticated, logout, authenticated, handle_capability,
  handle_logout, starttls_on, handle_starttls, auth_success, on_authenticated, handle_authenticate,
  on_validated, handle_login, handle_enable,
}
use brev.Imap.Session.Rules.{
  Frame, Framed-wire, Framed-wire_result, Framed-respond, Framed-write_untagged, Framed-become,
}

module _ (e : Environment) {P E : ImapSession e → Type 0} (f : Frame e P E) where
  abbrev pub Keeps : Act e (Unit {0}) → Type 0
  Keeps m = Triple P m (λ _. P) E

  pub Keeps-handle_capability : (tag : Tag) → Keeps (handle_capability e tag)
  unfolding handle_capability
  Keeps-handle_capability tag =
      Triple-bind (record { at = λ s h. (Framed-write_untagged e f _).at s h })
        (λ _. Framed-respond e f _)

  pub Keeps-handle_logout : (tag : Tag) → Keeps (handle_logout e tag)
  unfolding handle_logout
  Keeps-handle_logout tag = Triple-bind (Framed-become e f logout (λ who h. cc)) (λ _.
      Triple-bind (Framed-write_untagged e f (codes "BYE")) (λ _.
        Triple-bind (Framed-respond e f (with_tag (respond_ok (codes "Logged out")) tag))
          (λ _. Framed-wire e f shutdown)))

  Keeps-starttls_on :
      (tag : Tag) (encrypted configured : Bool) → Keeps (starttls_on e tag encrypted configured)
  unfolding starttls_on
  Keeps-starttls_on tag true configured = Framed-respond e f _
  Keeps-starttls_on tag false false = Framed-respond e f _
  Keeps-starttls_on tag false true = Triple-bind (Framed-respond e f _) (λ _. Framed-wire e f _)

  pub Keeps-handle_starttls : (tag : Tag) → Keeps (handle_starttls e tag)
  unfolding handle_starttls
  Keeps-handle_starttls tag = record { at = λ s h. (Keeps-starttls_on tag _ _).at s h }

  Keeps-auth_success :
      (tag : Tag) (who : Bytes) → Accepts e.validate who → Keeps (auth_success e tag who)
  unfolding auth_success
  Keeps-auth_success tag who a =
      Triple-bind (Framed-respond e f _) (λ _.
        Framed-become e f (authenticated who) (λ x h. let same : who ≡ x = cc in rw (← same) a))

  Keeps-on_authenticated :
      (tag : Tag) (a : Authenticated)
      → Triple (λ s. P s × Approved e.validate a) (on_authenticated e tag a) (λ _. P) E
  unfolding on_authenticated
  Keeps-on_authenticated tag (identity who) = record {
    at = λ s h. (Keeps-auth_success tag who (h.1)).at s (h.0);
  }
  Keeps-on_authenticated tag (mechanism_error err) = record {
    at = λ s h. (Framed-respond e f _).at s (h.0);
  }

  pub Keeps-handle_authenticate :
      (tag : Tag) (m : WhichMechanism) (initial : Option Bytes) (st : State)
      → Keeps (handle_authenticate e tag m initial st)
  unfolding handle_authenticate
  Keeps-handle_authenticate tag m initial not_authenticated =
      Triple-bind (Framed-wire_result e f (authenticate-Approved e.base64 e.validate m initial))
        (Keeps-on_authenticated tag)
  Keeps-handle_authenticate tag m initial _ = Framed-respond e f _

  Keeps-on_validated :
      (tag : Tag) (c : Credentials) (v : Validated)
      → e.validate c ≡ v
      → Keeps (on_validated e tag v)
  unfolding on_validated
  Keeps-on_validated tag c (valid who) h = Keeps-auth_success tag who (c, h)
  Keeps-on_validated tag c (invalid err) h = Framed-respond e f _

  pub Keeps-handle_login :
      (tag : Tag) (username password : Bytes) (st : State)
      → Keeps (handle_login e tag username password st)
  unfolding handle_login
  Keeps-handle_login tag username password not_authenticated = Keeps-on_validated tag _ _ refl
  Keeps-handle_login tag username password _ = Framed-respond e f _

  pub Keeps-handle_enable : (tag : Tag) (wanted : e.caps.Set) → Keeps (handle_enable e tag wanted)
  unfolding handle_enable
  Keeps-handle_enable tag wanted = elim (Bool-cases (e.caps.is_empty wanted)) [
    | inl h ↦ rw h (Framed-respond e f _)
    | inr h ↦ rw h (Framed-respond e f _)
  ]
