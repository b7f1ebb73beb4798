-- ===== src/Imap/Authenticate/Exchange.antt =====
-- What the dialogue of AUTHENTICATE makes of the client's response.
use brev.Base.{
  ◌≡◌, refl, ◌↔◌, Bool, false, Option, none, some, List, [], ◌∷◌, Bytes, codes, same, suc, length,
  trim_line, ℕ,
}
use brev.Io.{
  World, Io, Incoming, chunk, returned, perform, perform_on, answer, read_until, receive_from,
}
use brev.Line.{write, flush, write_flush, read_line, line_of}
use brev.Auth.{plain}
use brev.Auth.Plain.{
  Credentials, Validated, valid, Encodes, MechanismResult, break, continue, error, eat, eat_iff,
}
use brev.Imap.Authenticate.{
  Base64, Authenticated, identity, init, eat_bytes, authenticator_eat, response_of, next_response,
  on_eaten, authenticate_within, authenticate,
}

-- The client's response: the initial one, or the line that it sends when it is asked, where the
-- writes succeed.
pub data Responds (w : World) : Option Bytes → Bytes → Type 0 where
  at_once : {text : Bytes} → Responds w (some text) text
  when_asked :
      {more : Bool} {rest : List Incoming} (c : ℕ) (cs : Bytes)
      → w.answers ≡ []
      → w.incoming ≡ chunk (c ∷ cs) more ∷ rest
      → Responds w none (trim_line (c ∷ cs))

module _ (base64 : Base64) (validate : Credentials → Validated) where
  -- The response is Base64 of the bytes, and not `=`, which stands for none.
  pub record Carries (text bytes : Bytes) : Type 0 where
    pub encoded : trim_line text ≡ base64.encode bytes
    pub not_empty : same (base64.encode bytes) (codes "=") ≡ false

  authenticator_eat-Carries :
      (text bytes : Bytes)
      → Carries text bytes
      → authenticator_eat base64 validate plain text ≡ eat validate bytes
  unfolding authenticator_eat eat_bytes
  authenticator_eat-Carries text bytes h =
      rw (h.encoded, h.not_empty, base64.decode-encode bytes) refl

  on_eaten_iff :
      (again : Bytes → Io Authenticated) (r : MechanismResult) (w : World) (who : Bytes)
      → ((more : Bytes) → r ≡ continue more → ⊥)
      → ((on_eaten base64 validate again r w).0 ≡ returned (identity who)) ↔ (r ≡ break who)
  unfolding on_eaten
  on_eaten_iff again (break i) w who n = (λ h. cc, λ h. cc)
  on_eaten_iff again (continue more) w who n = absurd (n more refl)
  on_eaten_iff again (error e) w who n = (λ h. cc, λ h. cc)

  -- What is read when the server asks.
  asked :
      (w : World) {more : Bool} {rest : List Incoming} (c : ℕ) (cs : Bytes)
      → w.answers ≡ []
      → w.incoming ≡ chunk (c ∷ cs) more ∷ rest
      → (next_response base64 validate none [] w).0 ≡ returned (trim_line (c ∷ cs))
  unfolding next_response response_of write_flush write flush read_line line_of read_until
      receive_from perform perform_on answer
  asked w c cs a h = rw (a, h) refl

  -- The first round, on the response.
  responded :
      (w : World) (initial : Option Bytes) (text : Bytes)
      → Responds w initial text
      → (again : (Bytes → Io Authenticated)) × (v : World) × (authenticate base64 validate plain
            initial w
          ≡ on_eaten base64 validate again (authenticator_eat base64 validate plain text) v)
  unfolding authenticate authenticate_within init
  responded w _ text at_once = (
    authenticate_within base64 validate (suc (length w.incoming)) plain none,
    w,
    unfold next_response in refl,
  )
  responded w _ text (when_asked c cs a h) = (
    authenticate_within base64 validate (suc (length w.incoming)) plain none,
    (next_response base64 validate none [] w).1,
    rw (asked w c cs a h) refl,
  )

  -- With a response that is Base64 of some bytes, whether it comes with the command or when the server
  -- asks for it (then every write succeeds), the dialogue of AUTHENTICATE PLAIN ends with an identity
  -- if and only if these bytes encode credentials, the user name and then the password, that the
  -- validator accepts with that identity. A response that is `=` alone is left out.
  pub authenticate_iff :
      (initial : Option Bytes) (w : World) (text bytes who : Bytes)
      → Responds w initial text
      → Carries text bytes
      → ((authenticate base64 validate plain initial w).0 ≡ returned (identity who))
        ↔ ((c : Credentials) × Encodes c bytes × (validate c ≡ valid who))
  authenticate_iff initial w text bytes who r h =
      let (again, v, runs) = responded w initial text r in
      let (accepts, ends) = eat_iff validate bytes who in
      let ate = on_eaten_iff again (eat validate bytes) v who ends in
      rw (runs, authenticator_eat-Carries text bytes h)
        (λ k. (accepts.0) ((ate.0) k), λ k. (ate.1) ((accepts.1) k))
