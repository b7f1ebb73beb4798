-- ===== src/Tests/Command.antt =====
-- crates/smtp/src/command.rs at concrete inputs.
use brev.Base.{◌≡◌, refl, true, codes, Bytes}
use brev.Base.{split_once, to_ascii_uppercase}
use brev.Base.Decimal.{parse_uint}
use brev.Base.Utf8.{is_utf8}
use brev.Smtp.Command.{ok, Command, try_from, parse_verb, parse_bdat}
use brev.Smtp.Command.RoundTrip.{Writes, try_from-Writes}
use brev.Base.{[], ◌∷◌}
use brev.Base.{◌≢◌}
use brev.Io.{stalled}
use brev.Smtp.Bdat.{next_bdat}
use brev.Smtp.Bdat.Ends.{next_bdat_ends}
use brev.Tests.Samples.{says, nom, nom-Lawful, mail}

abbrev mail_line : Bytes
mail_line = codes "mail FROM:<a@b> SIZE=1"

mail_line-Writes : Writes nom mail (Command.mail_from (codes "a@b")) mail_line
unfolding split_once to_ascii_uppercase
mail_line-Writes =
    Writes.mail_from (codes "mail") (codes "FROM:") (codes "a@b") (codes " SIZE=1") refl refl refl
      refl

mail_line-utf8 : is_utf8 mail_line ≡ true
unfolding is_utf8
mail_line-utf8 = refl

try_from-Writes_example : try_from nom mail mail_line ≡ ok (Command.mail_from (codes "a@b"))
try_from-Writes_example = try_from-Writes nom mail nom-Lawful mail_line-Writes mail_line-utf8

bdat_line : try_from nom mail (codes "BDAT 12 last") ≡ ok (Command.bdat 12 true)
unfolding try_from parse_verb parse_bdat parse_uint
bdat_line = refl

next_bdat_ends_example :
    (next_bdat nom mail (says (codes "NOOP" ∷ codes "BDAT 3" ∷ []))).0 ≢ stalled
next_bdat_ends_example = next_bdat_ends nom mail (says (codes "NOOP" ∷ codes "BDAT 3" ∷ [])) tt
