-- ===== src/Imap/Sequence.antt =====
-- crates/imap-proto/src/sequence.rs: sets of sequence numbers, their text and its parser.
pub mod Bounds
pub mod RoundTrip
use brev.Base.{
  ℕ, ◌^◌, ◌==◌, Bool, true, false, Option, none, some, List, [], ◌∷◌, ◌++◌, Bytes, codes,
  if◌then◌else◌, ◌>>=◌,
}
use brev.Base.Decimal.{show, parse_uint}
use brev.Nom.{Nom, Parser}

-- The number is a `NonZeroU32`.
pub data Bound : Type 0 where
  inclusive : ℕ → Bound
  unbounded : Bound

pub record Range : Type 0 where
  pub lower : Bound
  pub upper : Bound

-- `Set`.
abbrev pub SequenceSet : Type 0
SequenceSet = List Range

abbrev pub bound_equal : Bound → Bound → Bool
bound_equal (inclusive n) (inclusive m) = n == m
bound_equal unbounded unbounded = true
bound_equal _ _ = false

-- `Display` of `Bound`, `Range` and `Set`.
unfoldable pub bound_to_string : Bound → Bytes
bound_to_string (inclusive n) = show n
bound_to_string unbounded = codes "*"

unfoldable pub range_to_string : Range → Bytes
unfolding bound_to_string
range_to_string r =
    if bound_equal r.lower r.upper
    then bound_to_string r.lower
    else bound_to_string r.lower ++ b':' ∷ bound_to_string r.upper

unfoldable pub set_to_string : SequenceSet → Bytes
set_to_string [] = []
set_to_string (r ∷ []) = range_to_string r
set_to_string (r ∷ s ∷ rest) = range_to_string r ++ b',' ∷ set_to_string (s ∷ rest)

abbrev pub u32_limit : ℕ
u32_limit = 2 ^ 32

-- `NonZeroU32::from_str`.
unfoldable pub nonzero_u32_from_str : Bytes → Option ℕ
nonzero_u32_from_str s = do n ← parse_uint u32_limit s; if n == 0 then none else some n

module _ (nom : Nom) where
  unfoldable pub parse_nonzero_u32 : Parser ℕ
  unfolding nonzero_u32_from_str
  parse_nonzero_u32 = nom.map_res Bytes ℕ nom.digit1 nonzero_u32_from_str

  unfoldable pub parse_bound : Parser Bound
  parse_bound =
      nom.alt Bound (nom.map ℕ Bound parse_nonzero_u32 inclusive)
        (nom.map ℕ Bound (nom.char b'*') (λ _. unbounded))

  unfoldable pub parse_range : Parser Range
  parse_range i = do
    lower ← parse_bound i
    colon ← nom.char b':' lower.0
    upper ← parse_bound colon.0
    some (upper.0, record { lower = lower.1; upper = upper.1 })

  -- `Range::parse`.
  unfoldable pub parse_range_or_number : Parser Range
  parse_range_or_number =
      nom.alt Range (nom.map Range Range parse_range (λ r. r)) (
        nom.map ℕ Range parse_nonzero_u32
          (λ n. record { lower = inclusive n; upper = inclusive n }))

  -- `Set::parse`.
  unfoldable pub parse_set : Parser SequenceSet
  parse_set i = do
    found ← nom.separated_list0 Range ℕ (nom.char b',') parse_range_or_number i
    some (found.0, found.1)
