-- ===== src/Smtp/Data/Advance.antt =====
-- `State::advance` writes what `step` says, where it fits, and panics where it does not.
use brev.Base.{
  ℕ, suc, ◌≤◌, ◌<◌, ◌≡◌, refl, ◌≢◌, Option, none, some, inl, inr, [], ◌∷◌, ◌++◌, arith, dec_lt,
  length, length-append, ◌==◌, ◌>>=◌, Bytes, crlf, Bool-cases,
}
use brev.Smtp.Data.{
  ReadBuf, State, start, cr, cr_lf, cr_lf_dot, cr_lf_dot_cr, cr_lf_dot_dot, cr_lf_dot_dot_cr, eof,
  arm, give_up, as_bytes, advance_within, advance, follow,
}
use brev.Smtp.Data.Pure.{
  held, restart, restart_lem, step, Wrote, Wrote-nil, Wrote-put, Wrote-append,
}

module _ (r : ReadBuf) where
  open r use {Buf, filled, remaining, put_slice}

  -- The outcome `o` of a call writes `p.0`, if that fits, and leaves the state `p.1`; else it panics.
  pub record Does (buf : Buf) (p : Bytes × State) (o : Option (State × Buf)) : Type 0 where
    pub fits :
        length p.0 ≤ remaining buf → (buf' : Buf) × (o ≡ some (p.1, buf')) × Wrote r buf p.0 buf'
    pub panics : remaining buf < length p.0 → o ≡ none

  Does-quiet : (buf : Buf) (s : State) → Does buf ([], s) (some (s, buf))
  Does-quiet buf s = record {
    fits = λ h. (buf, refl, Wrote-nil r buf);
    panics = λ h. absurd (omega arith);
  }

  -- `bs` is written first, and what comes after does `p`.
  module _ {A : Type 0} (g : Buf → Option A) (f : A → Option (State × Buf)) where
    Does-after :
        (bs : Bytes) (buf : Buf) (p : Bytes × State)
        → ((buf' : Buf) → Does buf' p (g buf' >>= f))
        → Does buf (bs ++ p.0, p.1) (put_slice bs buf >>= g >>= f)
    Does-after bs buf p later = record {
      fits = λ h.
          let (b1, e1, w1) = Wrote-put r bs buf (omega (arith, length-append bs p.0)) in
          let (b2, e2, w2) = (later b1).fits (omega (arith, length-append bs p.0, w1.room)) in
          (b2, rw e1 e2, Wrote-append r bs p.0 w1 w2);
      panics = λ h. elim (dec_lt (remaining buf) (length bs)) [
        | yes full ↦ rw (r.put_slice_panics bs buf full)
        | no room ↦
            let (b1, e1, w1) = Wrote-put r bs buf (omega arith) in
            rw e1 ((later b1).panics (omega (arith, length-append bs p.0, w1.room)))
      ];
    }

  -- The call of `advance` at the start.
  Does-start :
      (n b : ℕ) (buf : Buf) → Does buf (restart start b) (advance_within r (suc n) start b buf)
  unfolding advance_within restart arm
  Does-start n b buf = elim (Bool-cases (b == b'\r')) [
    | inl e ↦ rw e (Does-quiet buf cr)
    | inr e ↦ rw e (Does-after _ _ (b ∷ []) buf ([], start) (λ buf'. Does-quiet buf' start))
  ]

  -- A state that gives up what it holds back, and then reads `b` at the start.
  Does-give_up :
      (s : State) (b : ℕ) (buf : Buf)
      → as_bytes s ≡ some (held s)
      → Does buf (restart s b) (give_up r s buf >>= follow r (advance_within r 1 start b) s)
  unfolding give_up follow
  Does-give_up s b buf h =
      rw (h, restart_lem s b)
        (Does-after _ _ (held s) buf (restart start b) (λ buf'. Does-start 0 b buf'))

  Does-arm :
      (s : State) (b : ℕ) (buf : Buf)
      → s ≢ eof
      → s ≢ start
      → Does buf (step s b) (arm r s b buf >>= follow r (advance_within r 1 start b) s)
  unfolding arm step as_bytes follow
  Does-arm cr b buf h k = elim (Bool-cases (b == b'\n')) [
    | inl e ↦ rw e (Does-quiet buf cr_lf)
    | inr e ↦ rw e (Does-give_up cr b buf refl)
  ]
  Does-arm cr_lf b buf h k = elim (Bool-cases (b == b'.')) [
    | inl e ↦ rw e (Does-quiet buf cr_lf_dot)
    | inr e ↦ rw e (Does-give_up cr_lf b buf refl)
  ]
  Does-arm cr_lf_dot b buf h k = elim (Bool-cases (b == b'\r')) [
    | inl e ↦ rw e (Does-quiet buf cr_lf_dot_cr)
    | inr e ↦ elim (Bool-cases (b == b'.')) [
      | inl d ↦ rw (e, d) (Does-quiet buf cr_lf_dot_dot)
      | inr d ↦ rw (e, d) (Does-give_up cr_lf_dot b buf refl)
    ]
  ]
  Does-arm cr_lf_dot_cr b buf h k = elim (Bool-cases (b == b'\n')) [
    | inl e ↦ rw e (Does-after _ _ crlf buf ([], eof) (λ buf'. Does-quiet buf' eof))
    | inr e ↦ rw e (Does-give_up cr_lf_dot_cr b buf refl)
  ]
  Does-arm cr_lf_dot_dot b buf h k = elim (Bool-cases (b == b'\r')) [
    | inl e ↦ rw e (Does-quiet buf cr_lf_dot_dot_cr)
    | inr e ↦ rw e (Does-give_up cr_lf_dot_dot b buf refl)
  ]
  Does-arm cr_lf_dot_dot_cr b buf h k = elim (Bool-cases (b == b'\n')) [
    | inl e ↦
        rw e (
          Does-after _ _ (b'\r' ∷ b'\n' ∷ b'.' ∷ []) buf ([], cr_lf)
            (λ buf'. Does-quiet buf' cr_lf))
    | inr e ↦ rw e (Does-give_up cr_lf_dot_dot_cr b buf refl)
  ]
  Does-arm start b buf h k = absurd (k refl)
  Does-arm eof b buf h k = absurd (h refl)

  -- Every state: `advance` writes what `step` says where that fits, and panics where it does not.
  pub Does-advance :
      (s : State) (b : ℕ) (buf : Buf) → s ≢ eof → Does buf (step s b) (advance r s b buf)
  unfolding advance
  Does-advance start b buf h = unfold step in Does-start 1 b buf
  Does-advance s b buf h = Does-arm s b buf h (cc)
