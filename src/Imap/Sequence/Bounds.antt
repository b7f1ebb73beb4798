-- ===== src/Imap/Sequence/Bounds.antt =====
-- The text of a bound of a range, a number or `*`, and its parser.
use brev.Base.{ℕ, ◌<◌, ◌≡◌, refl, false, none, some, [], ◌∷◌, ◌++◌, arith, ◌==◌, Bytes}
use brev.Base.Decimal.{show, is_digit, parse_uint-show, show-is_digit, show-ne-nil}
use brev.Nom.{Nom, Lawful, starts, head_is}
use brev.Nom.Span.{Stops, span-append, nonempty-some}
use brev.Imap.Sequence.{
  Bound, inclusive, unbounded, bound_to_string, u32_limit, nonzero_u32_from_str, parse_nonzero_u32,
  parse_bound,
}

-- A number that a `NonZeroU32` can hold.
abbrev pub Fits : Bound → Type 0
Fits (inclusive n) = (0 < n) × (n < u32_limit)
Fits unbounded = Unit

-- The text does not go on with a digit, nor with the byte.
pub record Behind (c : ℕ) (rest : Bytes) : Type 0 where
  pub digit : Stops is_digit rest
  pub other : starts c rest ≡ false

pub head_is-starts : (c : ℕ) (rest : Bytes) → starts c rest ≡ false → head_is c rest ≡ none
head_is-starts c [] h = refl
head_is-starts c (d ∷ rest) h = rw h refl

nonzero_u32_from_str-show : (n : ℕ) → 0 < n → n < u32_limit → nonzero_u32_from_str (show n) ≡ some n
unfolding nonzero_u32_from_str
nonzero_u32_from_str-show n h k =
    let nonzero : (n == 0) ≡ false = ground arith in
    rw (parse_uint-show u32_limit n k, nonzero) refl

module _ (nom : Nom) (law : Lawful nom) where
  pub parse_nonzero_u32-show :
      (n : ℕ) (rest : Bytes)
      → 0 < n
      → n < u32_limit
      → Stops is_digit rest
      → parse_nonzero_u32 nom (show n ++ rest) ≡ some (rest, n)
  unfolding parse_nonzero_u32
  parse_nonzero_u32-show n rest h k s =
      rw
        (
          law.map_res_runs,
          law.digit1_runs,
          span-append is_digit (show n) rest (show-is_digit n) s,
          nonempty-some rest (show n) (show-ne-nil n),
          nonzero_u32_from_str-show n h k,
        )
        refl

  pub parse_nonzero_u32-star : (rest : Bytes) → parse_nonzero_u32 nom (b'*' ∷ rest) ≡ none
  unfolding parse_nonzero_u32
  parse_nonzero_u32-star rest = rw (law.map_res_runs, law.digit1_runs) refl

  pub parse_bound-star : (rest : Bytes) → parse_bound nom (b'*' ∷ rest) ≡ some (rest, unbounded)
  unfolding parse_bound
  parse_bound-star rest =
      rw (law.alt_runs, law.map_runs, parse_nonzero_u32-star rest, law.map_runs, law.char_runs) refl

  pub parse_bound-to_string :
      (b : Bound) (rest : Bytes)
      → Fits b
      → Stops is_digit rest
      → parse_bound nom (bound_to_string b ++ rest) ≡ some (rest, b)
  unfolding parse_bound bound_to_string
  parse_bound-to_string (inclusive n) rest h s =
      rw (law.alt_runs, law.map_runs, parse_nonzero_u32-show n rest (h.0) (h.1) s) refl
  parse_bound-to_string unbounded rest h s = parse_bound-star rest
