-- ===== src/Tests/Imap.antt =====
-- crates/imap-proto/src and crates/imap/src at concrete inputs.
use brev.Base.{◌≡◌, ◌≢◌, refl, false, none, some, [], ◌∷◌, ◌++◌, codes, same, arith, ◌↔◌, trim_line}
use brev.Base.{Bytes, to_ascii_uppercase, to_upper, split_once}
use brev.Base.Utf8.{is_utf8}
use brev.Io.{chunk, stalled, returned, panicked}
use brev.Io.Laws.{Post}
use brev.Auth.{plain}
use brev.Auth.Plain.{Credentials, Validated, valid, Encodes}
use brev.Imap.Flag.{keyword, flag_to_string, flag_from_str}
use brev.Imap.Flag.RoundTrip.{IsProper, flag_from_str-flag_to_string}
use brev.Imap.Capability.{capability_flags}
use brev.Imap.MailboxStatus.{item_flags}
use brev.Imap.List.{attribute_flags}
use brev.Imap.Sequence.{inclusive, unbounded, Range, set_to_string, parse_set}
use brev.Imap.Sequence.RoundTrip.{IsWritten, parse_set-set_to_string, parse_set-star}
use brev.Imap.Command.{Command, tagged}
use brev.Imap.Command.Parse.{tagged_try_from}
use brev.Imap.Command.Quoted.{IsText, quote}
use brev.Imap.Command.Written.{IsWord, word, quoted}
use brev.Imap.Command.Names.{login}
use brev.Imap.Command.RoundTrip.{two, tagged_try_from-Writes}
use brev.Imap.Authenticate.{Base64, identity, authenticate}
use brev.Imap.Authenticate.Exchange.{Carries, Responds, when_asked, authenticate_iff}
use brev.Imap.Session.{Environment, ImapSession, not_authenticated}
use brev.Imap.Session.Loop.{handle, next_cmd, next_op}
use brev.Imap.Session.Examine.{answered, examine_panics}
use brev.Imap.Ops.{Operation, OpResponse, SelectResult, done}
use brev.Imap.List.{list_item}
use brev.Base.{true}
use brev.Imap.Session.Rules.{IsValid}
use brev.Imap.Session.Invariant.{HandsOut, next_op-HandsOut}
use brev.Imap.Session.Ends.{next_op_ends}
use brev.Tests.Samples.{nom, nom-Lawful, bitflags, says}

work-IsProper : IsProper (keyword (codes "Work"))
unfolding same
work-IsProper =
    (refl, (refl, (refl, (refl, (refl, (refl, (refl, (refl, (refl, (refl, (refl, tt)))))))))))

flag_from_str-flag_to_string_example :
    flag_from_str (flag_to_string (keyword (codes "Work"))) ≡ keyword (codes "Work")
flag_from_str-flag_to_string_example =
    flag_from_str-flag_to_string (keyword (codes "Work")) work-IsProper

-- Base64 that does nothing.
abbrev pub base64 : Base64
base64 = record { encode = λ bs. bs; decode = λ bs. some bs; decode-encode = λ bs. refl }

abbrev pub accept_user : Credentials → Validated
accept_user c = valid c.username

abbrev pub environment : Environment
environment = record {
  nom = nom;
  caps = bitflags capability_flags;
  items = bitflags item_flags;
  attributes = bitflags attribute_flags;
  base64 = base64;
  validate = accept_user;
}

-- A client that logs in and selects a mailbox.
abbrev client : ImapSession environment
client = record {
  connection = says (codes "a LOGIN bob secret" ∷ codes "b EXAMINE INBOX" ∷ []);
  state = not_authenticated;
  queue = record { commands = []; rx = [] };
  greeted = false;
  tls = false;
}

client-IsValid : IsValid environment client
client-IsValid = record {
  accepted = λ who h. absurd (let k : none ≡ some who = h in cc);
  single = omega arith;
}

next_op-HandsOut_example :
    Post
      (HandsOut environment)
      (IsValid environment)
      (next_op environment client).0
      (next_op environment client).1
next_op-HandsOut_example = (next_op-HandsOut environment).at client client-IsValid

-- NUL, "bob", NUL, "secret".
abbrev response : Bytes
response = 0 ∷ (codes "bob" ++ 0 ∷ codes "secret")

bob-Responds : Responds (says (response ∷ [])) none response
unfolding trim_line
bob-Responds = when_asked 0 (codes "bob" ++ 0 ∷ codes "secret\r\n") refl refl

bob_carried : Carries base64 accept_user response response
unfolding trim_line same
bob_carried = record { encoded = refl; not_empty = refl }

authenticate_iff_example :
    ((authenticate base64 accept_user plain none (says (response ∷ []))).0
      ≡ returned (identity (codes "bob")))
    ↔ ((c : Credentials) × Encodes c response × (accept_user c ≡ valid (codes "bob")))
authenticate_iff_example =
    authenticate_iff base64 accept_user none (says (response ∷ [])) response response (codes "bob")
      bob-Responds bob_carried

abbrev from_two : Range
from_two = record { lower = inclusive 2; upper = unbounded }

from_two-IsWritten : IsWritten from_two
from_two-IsWritten = record {
  lower_fits = (omega arith, omega arith);
  upper_fits = tt;
  bounded = λ h. cc;
}

parse_set-set_to_string_example :
    parse_set nom (set_to_string (from_two ∷ []) ++ codes " ALL")
    ≡ some (codes " ALL", from_two ∷ [])
parse_set-set_to_string_example =
    parse_set-set_to_string nom nom-Lawful from_two [] (codes " ALL") (from_two-IsWritten, tt)
      (record { behind = record { digit = refl; other = refl }; comma = refl })

parse_set-star_example :
    parse_set nom
      (set_to_string (record { lower = unbounded; upper = unbounded } ∷ []) ++ codes " ALL")
    ≡ some (b'*' ∷ codes " ALL", [])
parse_set-star_example = parse_set-star nom nom-Lawful (codes " ALL") refl

-- The client closes the connection at its end.
abbrev closing : ImapSession environment
closing = record client {
  connection = record (says (codes "a LOGIN bob secret" ∷ [])) {
    incoming = chunk (codes "a LOGIN bob secret\r\n") false ∷ chunk [] false ∷ [];
  };
}

next_op_ends_example : (next_op environment closing).0 ≢ stalled
next_op_ends_example = next_op_ends environment 2 0 closing (record {
  calm = record { prompt = tt; closes = tt; fewer = omega arith };
  looks = omega arith;
  busy = omega arith;
  single = omega arith;
  arrives = λ d. absurd (d refl);
})

-- A password with a quotation mark.
abbrev secret : Bytes
secret = b'a' ∷ b'"' ∷ []

bob-IsWord : IsWord (codes "bob")
bob-IsWord = record {
  no_blank = (refl, (refl, (refl, tt)));
  not_quoted = refl;
  some_left = λ h. cc;
}

secret-IsText : IsText secret
secret-IsText = record { ascii = (omega arith, (omega arith, tt)); some_left = λ h. cc }

abbrev login_text : Bytes
login_text = codes "Login" ++ b' ' ∷ (codes "bob" ++ b' ' ∷ quote secret)

tagged_try_from-Writes_example :
    tagged_try_from environment.caps environment.items nom (codes "a1" ++ b' ' ∷ login_text)
    ≡ tagged (record { tag = codes "a1"; command = Command.login (codes "bob") secret })
unfolding to_ascii_uppercase to_upper split_once is_utf8
tagged_try_from-Writes_example =
    tagged_try_from-Writes environment.caps environment.items nom nom-Lawful (codes "a1")
      (Command.login (codes "bob") secret) login_text
      (two (codes "Login") login refl (word bob-IsWord) (quoted secret-IsText)) refl refl

-- What the caller finds in the mailbox.
abbrev inbox : SelectResult environment.attributes
inbox = record {
  flags = [];
  exists = 3;
  uid_validity = 1;
  next_uid = 4;
  mailbox = list_item environment.attributes (codes "INBOX") environment.attributes.empty;
  read_only = true;
}

examine_panics_example :
    ((handle environment (codes "b") (Command.examine (codes "INBOX")) client).0
      ≡ returned (some (Operation.select (codes "INBOX") true (codes "b"))))
    × ((next_cmd environment (
          answered environment
            (codes "b")
            (done (OpResponse.select inbox))
            []
            (handle environment (codes "b") (Command.examine (codes "INBOX")) client).1)).0
        ≡ panicked)
examine_panics_example =
    examine_panics environment (codes "b") (codes "INBOX") inbox [] client refl refl
