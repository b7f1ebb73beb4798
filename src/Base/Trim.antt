-- ===== src/Base/Trim.antt =====
-- `str::trim_end`: it takes off the characters with the Unicode property White_Space. A text is its
-- UTF-8 bytes, so such a character is one to three bytes.
use Prim.Native.Nat.{ℕ}
use mathlib.Core.Path.{◌≡◌, refl}
use mathlib.Core.Bool.{Bool, true, false, ◌&&◌, ◌||◌}
use mathlib.Core.Option.{Option, none, some}
use mathlib.Core.List.{[], ◌∷◌, ◌++◌}
use native.Mathlib.Omega.{arith}
use brev.Base.Tests.{ltb, leb, ◌==◌, if◌then◌else◌}
use brev.Base.Text.{Bytes, crlf}

-- The bytes of a blank character that have been read.
pub data Blank : Type 0 where
  boundary after_c2 after_e1 after_e1_9a after_e2 after_e2_80 after_e2_81 after_e3 after_e3_80 :
      Blank

blank_byte : ℕ → Option Blank
blank_byte c =
    if (leb 9 c && leb c 13) || c == b' '
    then some boundary
    else if c == 0xc2
    then some after_c2
    else if c == 0xe1
    then some after_e1
    else if c == 0xe2
    then some after_e2
    else if c == 0xe3
    then some after_e3
    else none

blank_step : Blank → ℕ → Option Blank
unfolding blank_byte
blank_step boundary c = blank_byte c
blank_step after_c2 c = if c == 0x85 || c == 0xa0 then some boundary else none
blank_step after_e1 c = if c == 0x9a then some after_e1_9a else none
blank_step after_e1_9a c = if c == 0x80 then some boundary else none
blank_step after_e2 c =
    if c == 0x80 then some after_e2_80 else if c == 0x81 then some after_e2_81 else none
blank_step after_e2_80 c =
    if leb 0x80 c && leb c 0x8a || c == 0xa8 || c == 0xa9 || c == 0xaf then some boundary else none
blank_step after_e2_81 c = if c == 0x9f then some boundary else none
blank_step after_e3 c = if c == 0x80 then some after_e3_80 else none
blank_step after_e3_80 c = if c == 0x80 then some boundary else none

-- Nothing but blank characters.
is_blank : Blank → Bytes → Bool
unfolding blank_step
is_blank boundary [] = true
is_blank _ [] = false
is_blank b (c ∷ cs) = elim (blank_step b c) [ none ↦ false | some b' ↦ is_blank b' cs ]

unfoldable pub trim_end : Bytes → Bytes
unfolding is_blank
trim_end [] = []
trim_end (c ∷ cs) = if is_blank boundary (c ∷ cs) then [] else c ∷ trim_end cs

-- Printable ASCII, and such a text that ends in a visible character.
abbrev pub printable : Bytes → Bool
printable [] = true
printable (c ∷ cs) = leb 32 c && ltb c 127 && printable cs

abbrev pub ends_visible : Bytes → Bool
ends_visible [] = true
ends_visible (c ∷ []) = ltb 32 c
ends_visible (c ∷ d ∷ cs) = ends_visible (d ∷ cs)

pub record IsLine (l : Bytes) : Type 0 where
  pub prints : printable l ≡ true
  pub visible : ends_visible l ≡ true

is_blank-IsLine :
    (c : ℕ) (cs : Bytes)
    → printable (c ∷ cs) ≡ true
    → ends_visible (c ∷ cs) ≡ true
    → is_blank boundary (c ∷ (cs ++ crlf)) ≡ false
unfolding is_blank blank_step blank_byte
is_blank-IsLine c [] h k = ground arith
is_blank-IsLine c (d ∷ cs) h k = ground (arith, is_blank-IsLine d cs)

-- A line break behind a line is taken off, and no more.
pub trim_end-IsLine : (l : Bytes) → IsLine l → trim_end (l ++ crlf) ≡ l
unfolding trim_end
trim_end-IsLine [] h = refl
trim_end-IsLine (c ∷ cs) h =
    rw (is_blank-IsLine c cs h.prints h.visible, trim_end-IsLine cs (tail_IsLine c cs h)) refl
  where
    tail_IsLine : (c : ℕ) (cs : Bytes) → IsLine (c ∷ cs) → IsLine cs
    tail_IsLine c [] h = record { prints = refl; visible = refl }
    tail_IsLine c (d ∷ cs) h = record {
      prints = (let p = h.prints in ground arith);
      visible = h.visible;
    }

pub printable-append :
    (a b : Bytes) → printable a ≡ true → printable b ≡ true → printable (a ++ b) ≡ true
printable-append [] b h k = k
printable-append (c ∷ cs) b h k = ground (arith, printable-append cs b)

pub ends_visible-append :
    (a b : Bytes) → ends_visible a ≡ true → ends_visible b ≡ true → ends_visible (a ++ b) ≡ true
ends_visible-append [] b h k = k
ends_visible-append (c ∷ []) [] h k = h
ends_visible-append (c ∷ []) (d ∷ ds) h k = k
ends_visible-append (c ∷ d ∷ cs) b h k = ends_visible-append (d ∷ cs) b h k
