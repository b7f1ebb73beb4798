-- ===== src/Imap/Authenticate/Approved.antt =====
-- An identity comes out of the dialogue of AUTHENTICATE only if the validator has accepted it.
use brev.Base.{ℕ, zero, suc, ◌≡◌, refl, Option, none, some, length, Bytes}
use brev.Io.{World, Io}
use brev.Io.Laws.{Triple, Post-state, Triple-pure, Triple-weaken, Triple-bind, Triple-stall}
use brev.Auth.{WhichMechanism, plain}
use brev.Auth.Plain.{Credentials, Validated, valid, MechanismResult, break, error, eat_iff}
use brev.Imap.Authenticate.{
  Base64, Authenticated, identity, mechanism_error, init, eat_bytes, authenticator_eat,
  next_response, on_eaten, authenticate_within, authenticate,
}

-- The validator accepts some credentials with the identity.
abbrev pub Accepts : (Credentials → Validated) → Bytes → Type 0
Accepts validate who = (c : Credentials) × (validate c ≡ valid who)

abbrev pub Approved : (Credentials → Validated) → Authenticated → Type 0
Approved validate (identity who) = Accepts validate who
Approved validate (mechanism_error err) = Unit

-- Nothing is asked of the connection.
abbrev pub Any : World → Type 0
Any w = Unit

module _ (base64 : Base64) (validate : Credentials → Validated) where
  eat_bytes-Accepts :
      (m : WhichMechanism) (o : Option Bytes) (who : Bytes)
      → eat_bytes base64 validate m o ≡ break who
      → Accepts validate who
  unfolding eat_bytes
  eat_bytes-Accepts plain none who h = cc
  eat_bytes-Accepts plain (some bytes) who h =
      let (c, encodes, accepted) = ((eat_iff validate bytes who).0).0 h in (c, accepted)

  -- Whatever the mechanism makes of a response, on its result.
  on_eaten-Approved :
      (again : Bytes → Io Authenticated) (m : WhichMechanism) (text : Bytes) (r : MechanismResult)
      → authenticator_eat base64 validate m text ≡ r
      → ((challenge : Bytes) → Triple Any (again challenge) (λ a w. Approved validate a) Any)
      → Triple Any (on_eaten base64 validate again r) (λ a w. Approved validate a) Any
  unfolding on_eaten authenticator_eat
  on_eaten-Approved again m text (break who) e h =
      Triple-weaken Any (λ w u. eat_bytes-Accepts m _ who e) (Triple-pure _ (identity who))
  on_eaten-Approved again m text (MechanismResult.continue challenge) e h = h challenge
  on_eaten-Approved again m text (error err) e h = Triple-pure _ (mechanism_error err)

  Triple-Any : {A : Type 0} (io : Io A) → Triple Any io (λ _. Any) Any
  Triple-Any io = record { at = λ w u. Post-state Any Any (io w).0 (io w).1 tt tt }

  authenticate_within-Approved :
      (n : ℕ) (m : WhichMechanism) (initial : Option Bytes) (challenge : Bytes)
      → Triple Any
          (authenticate_within base64 validate n m initial challenge)
          (λ a w. Approved validate a)
          Any
  unfolding authenticate_within
  authenticate_within-Approved zero m initial challenge =
      Triple-stall Any (λ a w. Approved validate a) (λ w u. tt)
  authenticate_within-Approved (suc n) m initial challenge =
      Triple-bind (Triple-Any (next_response base64 validate initial challenge)) (λ text.
        on_eaten-Approved (authenticate_within base64 validate n m none) m text
          (authenticator_eat base64 validate m text) refl (authenticate_within-Approved n m none))

  -- An identity that the dialogue of AUTHENTICATE ends with is one that the validator has accepted for
  -- some credentials, whatever the client sends and whether or not it sends an initial response.
  pub authenticate-Approved :
      (m : WhichMechanism) (initial : Option Bytes)
      → Triple Any (authenticate base64 validate m initial) (λ a w. Approved validate a) Any
  unfolding authenticate
  authenticate-Approved m initial = record {
    at = λ w u.
        (authenticate_within-Approved (suc (suc (length w.incoming))) m initial (init m)).at w u;
  }
