-- ===== src/Smtp/Reading.antt =====
-- How a reader who reads a message to its end fares.
use brev.Base.{◌++◌, Bytes}

-- The bytes, an error, a panic, or no end yet; each with what is left of the message.
pub data ReadEnd (A : Type 0) : Type 0 where
  whole : Bytes → A → ReadEnd A
  errored crashed unfinished : A → ReadEnd A

module _ {A : Type 0} where
  abbrev pub prepend : Bytes → ReadEnd A → ReadEnd A
  prepend bs (whole more a) = whole (bs ++ more) a
  prepend bs (errored a) = errored a
  prepend bs (crashed a) = crashed a
  prepend bs (unfinished a) = unfinished a
