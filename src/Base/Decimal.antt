-- ===== src/Base/Decimal.antt =====
-- Decimal numbers, as the standard library prints an unsigned integer and reads one back.
use Prim.Native.Nat.{ℕ, zero, suc, ◌+◌, ◌-◌, ◌*◌, ◌/◌, ◌%◌, ◌<◌}
use mathlib.Core.Path.{◌≡◌, refl, ◌∙◌, ap}
use mathlib.Core.Logic.{◌≢◌, inl, inr}
use mathlib.Core.Bool.{Bool, true, false, ◌&&◌}
use mathlib.Core.Option.{Option, none, some}
use mathlib.Core.List.{[], ◌∷◌}
use native.Mathlib.Omega.{arith}
use brev.Base.Tests.{ltb, leb, ◌==◌, if◌then◌else◌, Bool-cases, lt→ltb}
use brev.Base.Text.{Bytes, split_once}
use brev.Base.Lists.{All}

abbrev pub is_digit : ℕ → Bool
is_digit c = leb b'0' c && leb c b'9'

-- The digits of `n` in front of `tail`; the first argument bounds their number.
unfoldable pub show_onto : ℕ → ℕ → Bytes → Bytes
show_onto zero n tail = tail
show_onto (suc fuel) n tail =
    let rest = show_onto fuel (n / 10) ((b'0' + n % 10) ∷ tail) in
    if ltb n 10 then (b'0' + n) ∷ tail else rest

unfoldable pub show : ℕ → Bytes
unfolding show_onto
show n = show_onto (suc n) n []

-- The digits behind `acc`; an overflow of `limit` is an error, and so is any other byte.
unfoldable pub parse_digits : ℕ → ℕ → Bytes → Option ℕ
parse_digits limit acc [] = some acc
parse_digits limit acc (c ∷ cs) =
    let next = acc * 10 + (c - b'0') in
    let rest = parse_digits limit next cs in if is_digit c && ltb next limit then rest else none

-- `str::parse` of an unsigned integer below `limit`: a plus sign may stand in front.
unfoldable pub parse_uint : ℕ → Bytes → Option ℕ
unfolding parse_digits
parse_uint limit [] = none
parse_uint limit (c ∷ []) = parse_digits limit 0 (c ∷ [])
parse_uint limit (c ∷ d ∷ cs) =
    if c == b'+' then parse_digits limit 0 (d ∷ cs) else parse_digits limit 0 (c ∷ d ∷ cs)

pub parse_digits-lt :
    (limit acc : ℕ) (bs : Bytes) (n : ℕ)
    → acc < limit
    → parse_digits limit acc bs ≡ some n
    → n < limit
unfolding parse_digits
parse_digits-lt limit acc [] n h e = ground arith
parse_digits-lt limit acc (c ∷ cs) n h e =
    ground (arith, parse_digits-lt limit (acc * 10 + (c - b'0')) cs n)

pub parse_uint-lt :
    (limit : ℕ) (bs : Bytes) (n : ℕ) → 0 < limit → parse_uint limit bs ≡ some n → n < limit
unfolding parse_uint
parse_uint-lt limit [] n h e = cc
parse_uint-lt limit (c ∷ []) n h e = parse_digits-lt limit 0 (c ∷ []) n h e
parse_uint-lt limit (c ∷ d ∷ cs) n h e = elim (Bool-cases (c == b'+')) [
  | inl p ↦ parse_digits-lt limit 0 (d ∷ cs) n h (rw p at e)
  | inr p ↦ parse_digits-lt limit 0 (c ∷ d ∷ cs) n h (rw p at e)
]

parse_digits-digit :
    (limit acc d : ℕ) (cs : Bytes)
    → d < 10
    → acc * 10 + d < limit
    → parse_digits limit acc ((b'0' + d) ∷ cs) ≡ parse_digits limit (acc * 10 + d) cs
unfolding parse_digits
parse_digits-digit limit acc d cs h k =
    let back : b'0' + d - b'0' ≡ d = omega arith in
    let digit : is_digit (b'0' + d) ≡ true = ground arith in rw (back, digit, lt→ltb _ _ k)

pub parse_digits-show_onto :
    (limit fuel n : ℕ) (tail : Bytes)
    → n < fuel
    → n < limit
    → parse_digits limit 0 (show_onto fuel n tail) ≡ parse_digits limit n tail
unfolding show_onto
parse_digits-show_onto limit zero n tail h k = absurd (omega arith)
parse_digits-show_onto limit (suc fuel) n tail h k = elim (Bool-cases (ltb n 10)) [
  | inl small ↦ rw small (
      parse_digits-digit limit 0 n tail (ground arith) (omega arith)
      ∙ ap (λ m. parse_digits limit m tail) (omega arith))
  | inr big ↦ rw big (
      parse_digits-show_onto limit fuel (n / 10) _ (ground arith) (ground arith)
      ∙ parse_digits-digit limit (n / 10) (n % 10) tail (omega arith) (omega arith)
      ∙ ap (λ m. parse_digits limit m tail) (omega arith))
]

show_onto-cons :
    (fuel n : ℕ) (tail : Bytes)
    → n < fuel
    → (d : ℕ) × (ds : Bytes) × (show_onto fuel n tail ≡ (b'0' + d) ∷ ds) × (d < 10)
unfolding show_onto
show_onto-cons zero n tail h = absurd (omega arith)
show_onto-cons (suc fuel) n tail h = elim (Bool-cases (ltb n 10)) [
  | inl small ↦ (n, tail, rw small, ground arith)
  | inr big ↦ rw big (show_onto-cons fuel (n / 10) _ (ground arith))
]

parse_uint-digit :
    (limit d : ℕ) (ds : Bytes)
    → d < 10
    → parse_uint limit ((b'0' + d) ∷ ds) ≡ parse_digits limit 0 ((b'0' + d) ∷ ds)
unfolding parse_uint
parse_uint-digit limit d [] h = refl
parse_uint-digit limit d (e ∷ ds) h =
    let no_plus : ((b'0' + d) == b'+') ≡ false = ground arith in rw no_plus

parse_digits-nil : (limit acc : ℕ) → parse_digits limit acc [] ≡ some acc
unfolding parse_digits
parse_digits-nil limit acc = refl

-- What is printed is read back, if it is below the limit.
pub parse_uint-show : (limit n : ℕ) → n < limit → parse_uint limit (show n) ≡ some n
unfolding show
parse_uint-show limit n h =
    let (d, ds, e, small) = show_onto-cons (suc n) n [] (omega arith) in
    rw e (
      parse_uint-digit limit d ds small
      ∙ rw (← e) (parse_digits-show_onto limit (suc n) n [] (omega arith) h)
      ∙ parse_digits-nil limit n)

split_once-show_onto :
    (fuel n : ℕ) (tail : Bytes)
    → split_once b' ' tail ≡ none
    → split_once b' ' (show_onto fuel n tail) ≡ none
unfolding show_onto split_once
split_once-show_onto zero n tail h = h
split_once-show_onto (suc fuel) n tail h =
    ground (arith, split_once-show_onto fuel (n / 10) ((b'0' + n % 10) ∷ tail))

-- No blank stands in a printed number.
pub split_once-show : (n : ℕ) → split_once b' ' (show n) ≡ none
unfolding show split_once
split_once-show n = split_once-show_onto (suc n) n [] refl

show_onto-is_digit :
    (fuel n : ℕ) (tail : Bytes)
    → All (λ c. is_digit c ≡ true) tail
    → All (λ c. is_digit c ≡ true) (show_onto fuel n tail)
unfolding show_onto
show_onto-is_digit zero n tail h = h
show_onto-is_digit (suc fuel) n tail h = elim (Bool-cases (ltb n 10)) [
  | inl small ↦ rw small (ground arith, h)
  | inr big ↦ rw big (show_onto-is_digit fuel (n / 10) ((b'0' + n % 10) ∷ tail) (ground arith, h))
]

-- A printed number is digits, one at least.
pub show-is_digit : (n : ℕ) → All (λ c. is_digit c ≡ true) (show n)
unfolding show
show-is_digit n = show_onto-is_digit (suc n) n [] tt

pub show-ne-nil : (n : ℕ) → show n ≢ []
unfolding show
show-ne-nil n e = let (d, ds, f, h) = show_onto-cons (suc n) n [] (omega arith) in cc (e, f)
