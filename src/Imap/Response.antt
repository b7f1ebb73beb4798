-- ===== src/Imap/Response.antt =====
-- crates/imap-proto/src/response.rs: the responses that end a command, and from
-- crates/imap-proto/src/lib.rs the tag of a command.
use brev.Base.{◌++◌, ◌∷◌, Bytes, codes, crlf}
use brev.Auth.Plain.{
  ValidationError, invalid_credentials, unknown, MechanismError, validation, decode_error,
}

-- `Tag`, and its `Display`.
abbrev pub Tag : Type 0
Tag = Bytes

pub data Status : Type 0 where
  ok no_ bad : Status

-- `Display` of `Status`.
unfoldable pub status_to_string : Status → Bytes
status_to_string ok = codes "OK"
status_to_string no_ = codes "NO"
status_to_string bad = codes "BAD"

pub record StatusResponse : Type 0 where
  pub status : Status
  pub message : Bytes

pub record TaggedStatusResponse : Type 0 where
  pub tag : Tag
  pub status : Status
  pub message : Bytes

abbrev pub respond_ok : Bytes → StatusResponse
respond_ok message = record { status = ok; message = message }

abbrev pub respond_bad : Bytes → StatusResponse
respond_bad message = record { status = bad; message = message }

abbrev pub respond_no : Bytes → StatusResponse
respond_no message = record { status = no_; message = message }

abbrev pub with_tag : StatusResponse → Tag → TaggedStatusResponse
with_tag r tag = record { tag = tag; status = r.status; message = r.message }

-- `Display` of `TaggedStatusResponse`.
unfoldable pub tagged_to_string : TaggedStatusResponse → Bytes
unfolding status_to_string
tagged_to_string r = r.tag ++ b' ' ∷ (status_to_string r.status ++ b' ' ∷ (r.message ++ crlf))

-- `From<ValidationError>`, `From<MechanismError>`.
unfoldable pub of_validation_error : ValidationError → StatusResponse
of_validation_error invalid_credentials = respond_no (codes "invalid credentials")
of_validation_error unknown = respond_bad (codes "invalid identity")

unfoldable pub of_mechanism_error : MechanismError → StatusResponse
unfolding of_validation_error
of_mechanism_error decode_error = respond_bad (codes "failed to decode response")
of_mechanism_error (validation e) = of_validation_error e
