-- ===== src/Imap/Authenticate/Finishes.antt =====
-- `authenticate` ends while the client closes the connection in the end: its fuel is enough.
use brev.Base.{ℕ, zero, suc, ◌<◌, Option, none, some, arith, length, Bytes, codes, crlf}
use brev.Io.{Io}
use brev.Io.Finishes.{
  Finishes, Finishes-pure, Finishes-bind, Finishes-after, Calm, Calm-more, Calm-zero,
}
use brev.Line.{ReadLine, line, eof}
use brev.Line.Finishes.{AfterLine, Finishes-read_line, Finishes-write, Finishes-write_flush}
use brev.Auth.{WhichMechanism}
use brev.Auth.Plain
use brev.Auth.Plain.{Credentials, Validated, MechanismResult, break, error}
use brev.Imap.Authenticate.{
  Base64, Authenticated, identity, mechanism_error, init, response_of, next_response,
  authenticator_eat, on_eaten, authenticate_within, authenticate,
}

module _ (base64 : Base64) (validate : Credentials → Validated) where
  Finishes-response_of :
      (n : ℕ) (l : ReadLine)
      → Finishes (AfterLine (suc n) l) (response_of base64 validate l) (λ _. Calm n)
  unfolding response_of
  Finishes-response_of n (line buf) = Finishes-pure (λ _. Calm n) buf
  Finishes-response_of n eof = record { at = λ w h. tt }

  -- An answer to a challenge has taken a line.
  Finishes-next_response :
      (n : ℕ) (challenge : Bytes)
      → Finishes (Calm (suc n)) (next_response base64 validate none challenge) (λ _. Calm n)
  unfolding next_response
  Finishes-next_response n challenge = Finishes-bind (Finishes-write (codes "+ ")) (λ _.
      Finishes-bind (Finishes-write (base64.encode challenge)) (λ _.
        Finishes-bind (Finishes-write_flush crlf)
          (λ _. Finishes-bind (Finishes-read_line n) (Finishes-response_of n))))

  Finishes-on_eaten :
      {n : ℕ} (again : Bytes → Io Authenticated) (r : MechanismResult)
      → ((challenge : Bytes) → Finishes (Calm n) (again challenge) (λ _. Calm n))
      → Finishes (Calm n) (on_eaten base64 validate again r) (λ _. Calm n)
  unfolding on_eaten
  Finishes-on_eaten {n} again (break i) t = Finishes-pure (λ _. Calm n) (identity i)
  Finishes-on_eaten again (Plain.continue challenge) t = t challenge
  Finishes-on_eaten {n} again (error e) t = Finishes-pure (λ _. Calm n) (mechanism_error e)

  -- The rounds behind the first.
  Finishes-rounds :
      (fuel n : ℕ) (m : WhichMechanism) (challenge : Bytes)
      → n < fuel
      → Finishes (Calm n) (authenticate_within base64 validate fuel m none challenge) (λ _. Calm n)
  unfolding authenticate_within
  Finishes-rounds fuel zero m challenge less = record { at = λ w h. absurd (Calm-zero h) }
  Finishes-rounds zero (suc n) m challenge less = absurd (omega arith)
  Finishes-rounds (suc fuel) (suc n) m challenge less =
      Finishes-bind (Finishes-next_response n challenge) (λ text.
        Finishes-after (λ _. Calm (suc n)) (λ _ _ h. Calm-more h (omega arith))
          (Finishes-on_eaten (authenticate_within base64 validate fuel m none)
            (authenticator_eat base64 validate m text)
            (λ c. Finishes-rounds fuel n m c (omega arith))))

  Finishes-authenticate_within :
      (fuel n : ℕ) (m : WhichMechanism) (initial : Option Bytes) (challenge : Bytes)
      → n < fuel
      → Finishes
          (Calm n)
          (authenticate_within base64 validate (suc fuel) m initial challenge)
          (λ _. Calm n)
  unfolding authenticate_within next_response
  Finishes-authenticate_within fuel n m none challenge less =
      Finishes-rounds (suc fuel) n m challenge (omega arith)
  Finishes-authenticate_within fuel n m (some text) challenge less =
      Finishes-bind {Q = λ _. Calm n} (Finishes-pure (λ _. Calm n) text) (λ t.
        Finishes-on_eaten (authenticate_within base64 validate fuel m none)
          (authenticator_eat base64 validate m t) (λ c. Finishes-rounds fuel n m c less))

  pub Finishes-authenticate :
      (n : ℕ) (m : WhichMechanism) (initial : Option Bytes)
      → Finishes (Calm n) (authenticate base64 validate m initial) (λ _. Calm n)
  unfolding authenticate
  Finishes-authenticate n m initial = record {
    at = λ w h.
        (Finishes-after (λ _. Calm n) (λ _ _ k. Calm-more k h.fewer)
            (Finishes-authenticate_within (suc (length w.incoming)) (length w.incoming) m initial
              (init m) (omega arith))).at
          w (record { prompt = h.prompt; closes = h.closes; fewer = omega arith });
  }
