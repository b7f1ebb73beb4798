-- ===== src/Tests/Combinators.antt =====
-- A concrete version of the parser combinators, to show that their laws can hold.
use brev.Base.{
  ℕ, zero, suc, ◌<◌, ◌≡◌, refl, Bool, true, false, not, Option, none, some, List, [], ◌∷◌, ◌++◌,
  arith, length, ◌==◌, ==_self, if◌then◌else◌, Bytes,
}
use brev.Nom.{
  Parser, Lists, last, next, Unescapes, plain, escaped, Escaped, ends, goes, starts, or_else,
}

module _ {A B : Type 0} (separator : Parser B) (item : Parser A) where
  -- The fuel bounds the rounds.
  abbrev pub list_within : ℕ → Bytes → Option (Bytes × List A)
  list_within zero i = none
  list_within (suc n) i = elim (item i) [
    | none ↦ none
    | some (r, a) ↦ elim (separator r) [
      | none ↦ some (r, a ∷ [])
      | some (r', b) ↦ elim (list_within n r') [
        | none ↦ some (r, a ∷ [])
        | some (rest, more) ↦ some (rest, a ∷ more)
      ]
    ]
  ]

  pub list_within-Lists :
      (n : ℕ) {i rest : Bytes} {items : List A}
      → Lists separator item rest i items
      → length i < n
      → list_within n i ≡ some (rest, items)
  list_within-Lists zero (last e f) h = absurd (omega arith)
  list_within-Lists zero (next e f g l more) h = absurd (omega arith)
  list_within-Lists (suc n) (last e f) h = rw (e, f, list_within) refl
  list_within-Lists (suc n) (next e f g l more) h =
      rw (e, f, list_within-Lists n more (omega arith), list_within) refl

  abbrev pub list0 : Parser (List A)
  list0 i = elim (item i) [ none ↦ some (i, []) | some p ↦ list_within (suc (length i)) i ]

  pub list0-Lists :
      {i rest : Bytes} {items : List A}
      → Lists separator item rest i items
      → list0 i ≡ some (rest, items)
  list0-Lists {i} (last e f) =
      rw (e, list0) (list_within-Lists (suc (length i)) (last e f) (omega arith))
  list0-Lists {i} (next e f g l more) =
      rw (e, list0) (list_within-Lists (suc (length i)) (next e f g l more) (omega arith))

module _ (normal : Parser Bytes) (control : ℕ) (transform : Parser Bytes) where
  abbrev pub behind_control : Bytes → Option (Bytes × Bytes)
  behind_control [] = none
  behind_control (c ∷ cs) = if c == control then transform cs else none

  abbrev pub unescape : Bytes → Option (Bytes × Bytes)
  unescape i = or_else (normal i) (behind_control i)

  abbrev pub stops : Bytes → Bool
  stops r = elim (normal r) [ none ↦ not (starts control r) | some p ↦ false ]

  abbrev pub unescape_within : ℕ → Bytes → Option (Bytes × Bytes)
  unescape_within zero i = none
  unescape_within (suc n) i = elim (unescape i) [
    | none ↦ none
    | some (r, out) ↦ elim (stops r) [
      | true ↦ some (r, out)
      | false ↦ elim (unescape_within n r) [
        | none ↦ none
        | some (rest, more) ↦ some (rest, out ++ more)
      ]
    ]
  ]

  unescape-Unescapes :
      {i r out : Bytes} → Unescapes normal control transform i out r → unescape i ≡ some (r, out)
  unescape-Unescapes (plain e h) = rw e refl
  unescape-Unescapes (escaped e f h) = rw (e, ==_self control) f

  stops-Unescapes : {i r out : Bytes} → Unescapes normal control transform i out r → stops i ≡ false
  stops-Unescapes (plain e h) = rw (e, stops) refl
  stops-Unescapes (escaped e f h) = rw (e, ==_self control, stops) refl

  stops-Escaped :
      {i rest out : Bytes} → Escaped normal control transform rest i out → stops i ≡ false
  stops-Escaped (ends u e s) = stops-Unescapes u
  stops-Escaped (goes u more) = stops-Unescapes u

  length-Unescapes :
      {i r out : Bytes} → Unescapes normal control transform i out r → length r < length i
  length-Unescapes (plain e h) = h
  length-Unescapes (escaped e f h) = omega arith

  pub unescape_within-Escaped :
      (n : ℕ) {i rest out : Bytes}
      → Escaped normal control transform rest i out
      → length i < n
      → unescape_within n i ≡ some (rest, out)
  unescape_within-Escaped zero (ends u e s) h = absurd (omega arith)
  unescape_within-Escaped zero (goes u more) h = absurd (omega arith)
  unescape_within-Escaped (suc n) (ends u e s) h =
      rw (unescape-Unescapes u, e, s, unescape_within, stops) refl
  unescape_within-Escaped (suc n) (goes u more) h =
      rw
        (
          unescape-Unescapes u,
          stops-Escaped more,
          unescape_within-Escaped n more (omega (arith, length-Unescapes u)),
          unescape_within,
        )
        refl
