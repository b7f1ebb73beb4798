-- ===== src/Nom/Span.antt =====
-- How far the parsers of single bytes read.
use brev.Base.{◌≡◌, refl, ◌≢◌, ℕ, Bool, true, false, some, [], ◌∷◌, ◌++◌, All, Bytes}
use brev.Nom.{span, nonempty}

-- The test fails where the text goes on.
abbrev pub Stops : (ℕ → Bool) → Bytes → Type 0
Stops p [] = Unit
Stops p (c ∷ cs) = p c ≡ false

pub span-append :
    (p : ℕ → Bool) (xs rest : Bytes)
    → All (λ c. p c ≡ true) xs
    → Stops p rest
    → span p (xs ++ rest) ≡ (rest, xs)
span-append p [] [] h s = refl
span-append p [] (c ∷ rest) h s = rw s
span-append p (x ∷ xs) rest h s = rw (h.0, span-append p xs rest h.1 s)

pub nonempty-some : (rest xs : Bytes) → xs ≢ [] → nonempty (rest, xs) ≡ some (rest, xs)
nonempty-some rest [] h = absurd (h refl)
nonempty-some rest (x ∷ xs) h = refl
