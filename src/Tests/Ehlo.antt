-- ===== src/Tests/Ehlo.antt =====
-- crates/smtp/src/ehlo.rs at a concrete input.
use brev.Base.Decimal.{show}
use brev.Flags.{names, blank_names}
use brev.Base.{All, length, ◌≤◌, ◌≡◌, refl, some, [], ◌++◌, map, arith, codes}
use brev.Io.{returned}
use brev.Smtp.Ehlo.{
  Extension, AuthFlag, starttls, extensions, auths, Response, to_string, auth_to_string, size_line,
  render,
}
use brev.Smtp.Ehlo.Read.{response, read_response}
use brev.Smtp.Ehlo.Lines.{arrives}
use brev.Smtp.Ehlo.Texts.{cut}
use brev.Smtp.Ehlo.RoundTrip.{read_response-to_string}
use brev.Tests.Samples.{bitflags, bitflags-Lawful, says}

-- The server offers STARTTLS and a size, and no mechanism.
abbrev offer : Response (bitflags extensions) (bitflags auths)
offer = record {
  domain = codes "mail.example.com";
  offered = (bitflags extensions).flag starttls;
  size = some 1024;
  mechanisms = (bitflags auths).empty;
}

offer_short :
    All (λ line. length line ≤ 1000) (cut (to_string (bitflags extensions) (bitflags auths) offer))
unfolding to_string auth_to_string names size_line render show blank_names
offer_short = omega arith

read_response-to_string_example :
    (back : Response (bitflags extensions) (bitflags auths)) × ((read_response
        (bitflags extensions)
        (bitflags auths)
        (record (says []) {
          incoming =
              map arrives (cut (to_string (bitflags extensions) (bitflags auths) offer)) ++ [];
        })).0
      ≡ returned (response back))
    × (back.domain ≡ codes "mail.example.com")
    × (back.size ≡ some 1024)
    × ((f : Extension)
        → (bitflags-Lawful extensions).contains back.offered f
          ≡ (bitflags-Lawful extensions).contains offer.offered f)
    × ((f : AuthFlag)
        → (bitflags-Lawful auths).contains back.mechanisms f
          ≡ (bitflags-Lawful auths).contains offer.mechanisms f)
read_response-to_string_example =
    read_response-to_string (bitflags extensions) (bitflags auths) (bitflags-Lawful extensions)
      (bitflags-Lawful auths) offer (says []) []
      (record {
        domain = record { prints = refl; visible = refl };
        size = omega arith;
        short = offer_short;
      })
