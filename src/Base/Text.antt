-- ===== src/Base/Text.antt =====
-- Bytes, and the standard library's functions on them that the program uses. A `&str` is its
-- UTF-8 bytes: every delimiter that the program looks for is ASCII, and an ASCII byte never
-- stands inside a longer character.
use Prim.Native.Char.{code}
use Prim.Native.String.{String}
use Prim.Native.Nat.{ℕ, ◌-◌}
use mathlib.Core.Path.{◌≡◌, refl}
use mathlib.Core.Logic.{◌↔◌}
use mathlib.Core.Bool.{Bool, true, false, ◌&&◌, ◌||◌}
use mathlib.Core.Option.{Option, none, some}
use mathlib.Core.List.{List, [], ◌∷◌, ◌++◌}
use native.Mathlib.Omega.{arith}
use brev.Base.Tests.{leb, ◌==◌, ==_self, if◌then◌else◌}

abbrev pub Bytes : Type 0
Bytes = List ℕ

-- The bytes of an ASCII literal.
abbrev pub codes : String → Bytes
codes String.[] = []
codes (String.◌∷◌ c s) = code c ∷ codes s

abbrev pub crlf : Bytes
crlf = b'\r' ∷ b'\n' ∷ []

-- Equality of two strings.
unfoldable pub same : Bytes → Bytes → Bool
same [] [] = true
same (x ∷ xs) (y ∷ ys) = x == y && same xs ys
same _ _ = false

pub same_iff : (a b : Bytes) → (same a b ≡ true) ↔ (a ≡ b)
unfolding same
same_iff (x ∷ a) (y ∷ b) = ground (arith, same_iff a b)
same_iff _ _ = ground arith

-- `str::to_ascii_uppercase`, on one byte and on a string.
unfoldable pub to_upper : ℕ → ℕ
to_upper c = if leb b'a' c && leb c b'z' then c - 32 else c

unfoldable pub to_ascii_uppercase : Bytes → Bytes
unfolding to_upper
to_ascii_uppercase [] = []
to_ascii_uppercase (c ∷ cs) = to_upper c ∷ to_ascii_uppercase cs

pub to_upper_idem : (c : ℕ) → to_upper (to_upper c) ≡ to_upper c
unfolding to_upper
to_upper_idem c = ground arith

-- `str::split_once` at an ASCII byte: the text before the first delimiter, and that behind it.
unfoldable pub split_once : ℕ → Bytes → Option (Bytes × Bytes)
split_once d [] = none
split_once d (c ∷ cs) =
    let rest = split_once d cs in
    if c == d then some ([], cs) else elim rest [ none ↦ none | some (a, b) ↦ some (c ∷ a, b) ]

abbrev pub or_whole : Bytes → Option (Bytes × Bytes) → Bytes × Bytes
or_whole s none = (s, [])
or_whole s (some p) = p

-- `s.split_once(d).unwrap_or((s, ""))`.
unfoldable pub split_or : ℕ → Bytes → Bytes × Bytes
unfolding split_once
split_or d s = or_whole s (split_once d s)

-- One byte in front of the parts of the rest; a delimiter begins a new part.
abbrev pub add_byte : Bool → ℕ → List Bytes → List Bytes
add_byte true c parts = [] ∷ parts
add_byte false c [] = (c ∷ []) ∷ []
add_byte false c (s ∷ rest) = (c ∷ s) ∷ rest

-- `str::split` at an ASCII byte.
unfoldable pub split : ℕ → Bytes → List Bytes
split d [] = [] ∷ []
split d (c ∷ cs) = add_byte (c == d) c (split d cs)

-- `slice::iter().rposition(|c| c is no CR or LF)` and the truncation behind that position.
unfoldable pub trim_line : Bytes → Bytes
trim_line [] = []
trim_line (c ∷ cs) = elim (trim_line cs) [
  | [] ↦ if c == b'\r' || c == b'\n' then [] else c ∷ []
  | d ∷ ds ↦ c ∷ d ∷ ds
]

pub split_once-append :
    (d : ℕ) (a b : Bytes) → split_once d a ≡ none → split_once d (a ++ d ∷ b) ≡ some (a, b)
unfolding split_once
split_once-append d [] b h = ground arith
split_once-append d (c ∷ cs) b h = ground (arith, split_once-append d cs b)

pub split_or-append :
    (d : ℕ) (a b : Bytes) → split_once d a ≡ none → split_or d (a ++ d ∷ b) ≡ (a, b)
unfolding split_or
split_or-append d a b h = rw (split_once-append d a b h)

pub split_or-none : (d : ℕ) (a : Bytes) → split_once d a ≡ none → split_or d a ≡ (a, [])
unfolding split_or
split_or-none d a h = rw h

-- No blank arises or goes when letters are raised to upper case.
pub split_once-to_ascii_uppercase :
    (v : Bytes) → split_once b' ' (to_ascii_uppercase v) ≡ none → split_once b' ' v ≡ none
unfolding split_once to_ascii_uppercase
split_once-to_ascii_uppercase [] h = refl
split_once-to_ascii_uppercase (c ∷ cs) h = ground (arith, split_once-to_ascii_uppercase cs)

-- What is split stood around the first delimiter.
pub split_once-some :
    (d : ℕ) (s a b : Bytes)
    → split_once d s ≡ some (a, b)
    → (s ≡ a ++ d ∷ b) × (split_once d a ≡ none)
unfolding split_once
split_once-some d [] a b h = cc
split_once-some d (c ∷ cs) [] b h = ground (arith, split_once-some d cs)
split_once-some d (c ∷ cs) (x ∷ a) b h = ground (arith, split_once-some d cs a b)

pub split-none : (d : ℕ) (a : Bytes) → split_once d a ≡ none → split d a ≡ a ∷ []
unfolding split_once split
split-none d [] h = refl
split-none d (c ∷ cs) h = ground (arith, split-none d cs)

pub split-append :
    (d : ℕ) (a b : Bytes) → split_once d a ≡ none → split d (a ++ d ∷ b) ≡ a ∷ split d b
unfolding split_once split
split-append d [] b h = rw (==_self d) refl
split-append d (c ∷ cs) b h = ground (arith, split-append d cs b)
