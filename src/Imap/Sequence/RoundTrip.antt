-- ===== src/Imap/Sequence/RoundTrip.antt =====
-- The text of a sequence set is parsed back to the set.
use brev.Base.{
  ℕ, ◌<◌, ◌≡◌, refl, ◌≢◌, ap, ◌∙◌, true, false, none, some, [], ◌∷◌, ◌++◌, All, arith,
  length-append, append_assoc, ==_iff, Bytes, Bool-cases, inl, inr,
}
use brev.Base.Decimal.{show, is_digit}
use brev.Nom.{Nom, Lawful, Lists, last, next, starts}
use brev.Nom.Span.{Stops}
use brev.Imap.Sequence.Bounds.{
  Fits, Behind, head_is-starts, parse_nonzero_u32-show, parse_nonzero_u32-star, parse_bound-star,
  parse_bound-to_string,
}
use brev.Imap.Sequence.{
  Bound, inclusive, unbounded, Range, SequenceSet, bound_equal, bound_to_string, range_to_string,
  set_to_string, u32_limit, parse_bound, parse_range, parse_range_or_number, parse_set,
}

-- What a text of the set can stand for: not from `*` to `*`.
pub record IsWritten (r : Range) : Type 0 where
  pub lower_fits : Fits r.lower
  pub upper_fits : Fits r.upper
  pub bounded : r.lower ≡ unbounded → r.upper ≢ unbounded

bound_equal_eq : (a b : Bound) → bound_equal a b ≡ true → a ≡ b
bound_equal_eq (inclusive n) (inclusive m) h = ap inclusive ((==_iff n m).0 h)
bound_equal_eq unbounded unbounded h = refl
bound_equal_eq _ _ h = cc

-- The text behind a set goes on with none of the bytes that a set is made of.
pub record After (rest : Bytes) : Type 0 where
  pub behind : Behind b':' rest
  pub comma : starts b',' rest ≡ false

comma-Behind : (rest : Bytes) → Behind b':' (b',' ∷ rest)
comma-Behind rest = record { digit = refl; other = refl }

module _ (nom : Nom) (law : Lawful nom) where
  parse_number-to_string :
      (n : ℕ) (rest : Bytes)
      → 0 < n
      → n < u32_limit
      → Behind b':' rest
      → parse_range_or_number nom (show n ++ rest)
        ≡ some (rest, record { lower = inclusive n; upper = inclusive n })
  unfolding parse_range_or_number parse_range bound_to_string
  parse_number-to_string n rest h k s =
      rw
        (
          law.alt_runs,
          law.map_runs,
          parse_bound-to_string nom law (inclusive n) rest (h, k) s.digit,
          law.char_runs,
          head_is-starts b':' rest s.other,
          law.map_runs,
          parse_nonzero_u32-show nom law n rest h k s.digit,
        )
        refl

  parse_two-to_string :
      (a b : Bound) (rest : Bytes)
      → Fits a
      → Fits b
      → Stops is_digit rest
      → parse_range_or_number nom (bound_to_string a ++ b':' ∷ (bound_to_string b ++ rest))
        ≡ some (rest, record { lower = a; upper = b })
  unfolding parse_range_or_number parse_range
  parse_two-to_string a b rest h k s =
      rw
        (
          law.alt_runs,
          law.map_runs,
          parse_bound-to_string nom law a (b':' ∷ (bound_to_string b ++ rest)) h refl,
          law.char_runs,
          parse_bound-to_string nom law b rest k s,
        )
        refl

  -- Both ends alike: a number, since `*` to `*` is not written.
  parse_same :
      (a : Bound) (rest : Bytes)
      → Fits a
      → a ≢ unbounded
      → Behind b':' rest
      → parse_range_or_number nom (bound_to_string a ++ rest)
        ≡ some (rest, record { lower = a; upper = a })
  unfolding bound_to_string
  parse_same (inclusive n) rest h k s = parse_number-to_string n rest (h.0) (h.1) s
  parse_same unbounded rest h k s = absurd (k refl)

  parse_range-to_string :
      (r : Range) (rest : Bytes)
      → IsWritten r
      → Behind b':' rest
      → parse_range_or_number nom (range_to_string r ++ rest) ≡ some (rest, r)
  unfolding range_to_string
  parse_range-to_string r rest w s = elim (Bool-cases (bound_equal r.lower r.upper)) [
    | inl e ↦
        let same : r.lower ≡ r.upper = bound_equal_eq r.lower r.upper e in
        let number : r.lower ≢ unbounded = λ u. w.bounded u (cc) in
        simp e (
          parse_same r.lower rest w.lower_fits number s
          ∙ ap (λ u. some (rest, record { lower = r.lower; upper = u })) same)
    | inr e ↦
        simp (e, append_assoc)
          (parse_two-to_string r.lower r.upper rest w.lower_fits w.upper_fits s.digit)
  ]

  Lists-set :
      (r : Range) (rs : SequenceSet) (rest : Bytes)
      → IsWritten r
      → All IsWritten rs
      → After rest
      → Lists
          (nom.char b',')
          (parse_range_or_number nom)
          rest
          (set_to_string (r ∷ rs) ++ rest)
          (r ∷ rs)
  unfolding set_to_string
  Lists-set r [] rest w ws a =
      last (parse_range-to_string r rest w a.behind)
        (law.char_runs b',' rest ∙ head_is-starts b',' rest a.comma)
  Lists-set r (s ∷ rs) rest w ws a =
      let after : Bytes = set_to_string (s ∷ rs) ++ rest in
      let whole : (range_to_string r ++ b',' ∷ set_to_string (s ∷ rs)) ++ rest
          ≡ range_to_string r ++ b',' ∷ after =
        append_assoc (range_to_string r) (b',' ∷ set_to_string (s ∷ rs)) rest in
      rw whole (
        next (parse_range-to_string r (b',' ∷ after) w (comma-Behind after))
          (law.char_runs b',' (b',' ∷ after)) (omega arith)
          (omega (arith, length-append (range_to_string r) (b',' ∷ after)))
          (Lists-set s rs rest (ws.0) (ws.1) a))

  -- A set of ranges, each within 32 bits and none from `*` to `*`, is parsed back from its text, in
  -- front of any text that does not go on with a digit, a colon or a comma.
  pub parse_set-set_to_string :
      (r : Range) (rs : SequenceSet) (rest : Bytes)
      → All IsWritten (r ∷ rs)
      → After rest
      → parse_set nom (set_to_string (r ∷ rs) ++ rest) ≡ some (rest, r ∷ rs)
  unfolding parse_set
  parse_set-set_to_string r rs rest w a =
      rw
        (law.separated_list0_lists Range ℕ (nom.char b',') (parse_range_or_number nom)
          (set_to_string (r ∷ rs) ++ rest) rest (r ∷ rs) (Lists-set r rs rest (w.0) (w.1) a))
        refl

  -- The text `*` alone, which stands for the last message, is parsed as no range at all, and is left
  -- unread; so the set with only the range from `*` to `*` does not come back.
  pub parse_set-star :
      (rest : Bytes)
      → starts b':' rest ≡ false
      → parse_set nom (set_to_string (record { lower = unbounded; upper = unbounded } ∷ []) ++ rest)
        ≡ some (b'*' ∷ rest, [])
  unfolding parse_set parse_range_or_number parse_range parse_bound set_to_string range_to_string
      bound_to_string
  parse_set-star rest h =
      rw
        (law.separated_list0_none Range ℕ (nom.char b',') (parse_range_or_number nom) (b'*' ∷ rest)
          unread)
        refl
    where
      unread : parse_range_or_number nom (b'*' ∷ rest) ≡ none
      unread =
          rw
            (
              law.alt_runs,
              law.map_runs,
              parse_bound-star nom law rest,
              law.char_runs,
              head_is-starts b':' rest h,
              law.map_runs,
              parse_nonzero_u32-star nom law rest,
            )
            refl
