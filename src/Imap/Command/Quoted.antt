-- ===== src/Imap/Command/Quoted.antt =====
-- A string between quotation marks is parsed back to the string.
use brev.Base.{
  ℕ, ◌<◌, ◌≡◌, refl, ◌≢◌, true, some, [], ◌∷◌, ◌++◌, append_assoc, All, arith, ◌==◌, ==_iff, Bytes,
  same, if◌then◌else◌, Bool-cases, inl, inr,
}
use brev.Flags.{Bitflags}
use brev.Nom.{Nom, Parser, Lawful, Unescapes, plain, escaped, Escaped, ends, goes, one_of}
use brev.Imap.Capability.{capability_flags}
use brev.Imap.MailboxStatus.{item_flags}
use brev.Imap.Command.Args.{parse_dquote_str}

-- `\` and `"`.
abbrev pub special : Bytes
special = b'\\' ∷ b'"' ∷ []

-- How a client writes a string: between quotation marks, the special bytes behind a backslash.
abbrev pub escape : Bytes → Bytes
escape [] = []
escape (c ∷ cs) = if one_of special c then b'\\' ∷ c ∷ escape cs else c ∷ escape cs

abbrev pub quote : Bytes → Bytes
quote s = b'"' ∷ (escape s ++ b'"' ∷ [])

-- ASCII, and not empty.
pub record IsText (s : Bytes) : Type 0 where
  pub ascii : All (λ c. c < 128) s
  pub some_left : s ≢ []

module _ (caps : Bitflags capability_flags) (items : Bitflags item_flags) (nom : Nom)
    (law : Lawful nom) where
  abbrev normal : Parser Bytes
  normal = nom.none_of (b'\\' ∷ b'"' ∷ [])

  abbrev transform : Parser Bytes
  transform = nom.alt Bytes (nom.tag (b'\\' ∷ [])) (nom.tag (b'"' ∷ []))

  transform-special :
      (c : ℕ) (rest : Bytes) → one_of special c ≡ true → transform (c ∷ rest) ≡ some (rest, c ∷ [])
  unfolding same
  transform-special c rest h = elim (Bool-cases (c == b'\\')) [
    | inl k ↦ rw (law.alt_runs, (==_iff c b'\\').0 k, law.tag_match (b'\\' ∷ []) rest) refl
    | inr k ↦
        let quoted : c ≡ b'"' = ground (arith, ==_iff c b'"') in
        rw
          (
            law.alt_runs,
            quoted,
            law.tag_differs (b'\\' ∷ []) (b'"' ∷ rest) refl,
            law.tag_match (b'"' ∷ []) rest,
          )
          refl
  ]

  Unescapes-escape :
      (c : ℕ) (cs rest : Bytes)
      → c < 128
      → Unescapes normal b'\\' transform (escape (c ∷ cs) ++ rest) (c ∷ []) (escape cs ++ rest)
  Unescapes-escape c cs rest h = elim (Bool-cases (one_of special c)) [
    | inl k ↦ rw k (
        escaped (rw (law.none_of_ascii special b'\\' (c ∷ (escape cs ++ rest)) (omega arith)) refl)
          (transform-special c (escape cs ++ rest) k) (omega arith))
    | inr k ↦
        rw k (plain (rw (law.none_of_ascii special c (escape cs ++ rest) h, k) refl) (omega arith))
  ]

  -- The text up to the closing mark.
  Escaped-escape :
      (c : ℕ) (cs rest : Bytes)
      → All (λ c. c < 128) (c ∷ cs)
      → Escaped normal b'\\' transform (b'"' ∷ rest) (escape (c ∷ cs) ++ b'"' ∷ rest) (c ∷ cs)
  Escaped-escape c [] rest h =
      ends (Unescapes-escape c [] (b'"' ∷ rest) (h.0))
        (rw (law.none_of_ascii special b'"' rest (omega arith)) refl) refl
  Escaped-escape c (d ∷ cs) rest h =
      goes (Unescapes-escape c (d ∷ cs) (b'"' ∷ rest) (h.0)) (Escaped-escape d cs rest (h.1))

  pub parse_dquote_str-quote :
      (s rest : Bytes)
      → IsText s
      → parse_dquote_str caps items nom (quote s ++ rest) ≡ some (rest, s)
  unfolding parse_dquote_str
  parse_dquote_str-quote [] rest h = absurd (h.some_left refl)
  parse_dquote_str-quote (c ∷ cs) rest h =
      rw
        (
          append_assoc (escape (c ∷ cs)) (b'"' ∷ []) rest,
          law.tag_match (b'"' ∷ []) (escape (c ∷ cs) ++ b'"' ∷ rest),
          law.escaped_transform_runs normal b'\\' transform (escape (c ∷ cs) ++ b'"' ∷ rest)
              (b'"' ∷ rest) (c ∷ cs) (Escaped-escape c cs rest h.ascii),
          law.tag_match (b'"' ∷ []) rest,
        )
        refl
