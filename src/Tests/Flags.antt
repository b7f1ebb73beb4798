-- ===== src/Tests/Flags.antt =====
-- crates/util/src/lib.rs at a concrete set of flags.
use brev.Base.{◌≡◌, arith}
use brev.Flags.{names, from_iter}
use brev.Flags.RoundTrip.{WellNamed, from_iter-names}
use brev.Smtp.Ehlo.{chunking, starttls, extensions}
use brev.Tests.Samples.{bitflags, bitflags-Lawful}

extensions-WellNamed : WellNamed extensions
extensions-WellNamed = record { complete = λ f. ground arith; distinct = λ f g e. ground arith }

-- The set of STARTTLS and CHUNKING.
abbrev two : (bitflags extensions).Set
two =
    (bitflags extensions).union ((bitflags extensions).flag starttls)
      ((bitflags extensions).flag chunking)

from_iter-names_example :
    (bitflags-Lawful extensions).contains
      (from_iter extensions (bitflags extensions) (names extensions (bitflags extensions) two))
      starttls
    ≡ (bitflags-Lawful extensions).contains two starttls
from_iter-names_example =
    from_iter-names extensions (bitflags extensions) (bitflags-Lawful extensions)
      extensions-WellNamed two starttls
