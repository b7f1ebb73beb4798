-- ===== src/Imap/Authenticate.antt =====
-- crates/imap/src/authenticate.rs: the SASL dialogue of AUTHENTICATE. Base64 is the crate `base64`,
-- which is not part of the repository: it is the parameter `Base64`.
pub mod Approved
pub mod Exchange
pub mod Finishes
use brev.Base.{
  ℕ, zero, suc, ◌≡◌, Option, none, some, [], ◌∷◌, ◌++◌, length, Bytes, codes, crlf, same,
  if◌then◌else◌, trim_line,
}
use brev.Io.{Io, Async, IoError, unexpected_eof, pure, fail, stall, ◌>>=◌, ◌>>◌}
use brev.Line.{ReadLine, line, eof, read_line, write, write_flush}
use brev.Auth.{WhichMechanism, plain}
use brev.Auth.Plain
use brev.Auth.Plain.{
  Credentials, Validated, MechanismError, decode_error, MechanismResult, break, continue, error,
  eat,
}

pub record Base64 : Type 0 where
  pub encode : Bytes → Bytes
  pub decode : Bytes → Option Bytes
  -- What is encoded is decoded to itself.
  pub decode-encode : (bs : Bytes) → decode (encode bs) ≡ some bs

-- `Result<Identity, Error>`, whose I/O errors are the action's failures.
pub data Authenticated : Type 0 where
  identity : Bytes → Authenticated
  mechanism_error : MechanismError → Authenticated

-- `Authenticator::init`, the first challenge of the mechanism.
unfoldable pub init : WhichMechanism → Bytes
init plain = []

module _ (base64 : Base64) (validate : Credentials → Validated) where
  unfoldable pub eat_bytes : WhichMechanism → Option Bytes → MechanismResult
  unfolding eat
  eat_bytes plain none = error decode_error
  eat_bytes plain (some bytes) = eat validate bytes

  -- `Authenticator::eat`.
  unfoldable pub authenticator_eat : WhichMechanism → Bytes → MechanismResult
  unfolding eat_bytes trim_line same
  authenticator_eat mechanism text =
      let trimmed = trim_line text in
      eat_bytes mechanism (if same trimmed (codes "=") then some [] else base64.decode trimmed)

  unfoldable pub response_of : ReadLine → Io Bytes
  response_of (line buf) = pure buf
  response_of eof = fail unexpected_eof

  -- The line of a round: the initial response, or the answer to a challenge.
  unfoldable pub next_response : Option Bytes → Bytes → Io Bytes
  unfolding write write_flush read_line response_of
  next_response (some initial) challenge = pure initial
  next_response none challenge = do
    write (codes "+ ")
    write (base64.encode challenge)
    write_flush crlf
    l ← read_line []
    response_of l

  unfoldable pub on_eaten : (Bytes → Io Authenticated) → MechanismResult → Io Authenticated
  on_eaten again (break i) = pure (identity i)
  on_eaten again (continue challenge) = again challenge
  on_eaten again (error e) = pure (mechanism_error e)

  -- The first round may have the initial response; each other reads a line, so the fuel is two more
  -- than the answers that the environment will give.
  unfoldable pub authenticate_within : ℕ → WhichMechanism → Option Bytes → Bytes → Io Authenticated
  unfolding next_response authenticator_eat on_eaten
  authenticate_within zero mechanism initial challenge = stall
  authenticate_within (suc n) mechanism initial challenge =
      let again = authenticate_within n mechanism none in
      do text ← next_response initial challenge; on_eaten again (authenticator_eat mechanism text)

  unfoldable pub authenticate : WhichMechanism → Option Bytes → Io Authenticated
  unfolding authenticate_within init
  authenticate mechanism initial w =
      authenticate_within (suc (suc (length w.incoming))) mechanism initial (init mechanism) w
