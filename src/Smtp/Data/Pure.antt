-- ===== src/Smtp/Data/Pure.antt =====
-- `State::advance` as a function of the bytes alone: what it writes and the state it leaves.
use brev.Base.{
  Bool-cases, inl, inr, ℕ, ◌+◌, ◌≤◌, ◌≡◌, sym, ap, ◌∙◌, some, [], ◌∷◌, ◌++◌, arith, length,
  length-append, ◌==◌, if◌then◌else◌, Bytes, crlf, append-nil, append_assoc,
}
use brev.Smtp.Data.{
  ReadBuf, State, start, cr, cr_lf, cr_lf_dot, cr_lf_dot_cr, cr_lf_dot_dot, cr_lf_dot_dot_cr, eof,
}

-- The bytes that a state holds back.
abbrev pub held : State → Bytes
held start = []
held cr = b'\r' ∷ []
held cr_lf = b'\r' ∷ b'\n' ∷ []
held cr_lf_dot = b'\r' ∷ b'\n' ∷ b'.' ∷ []
held cr_lf_dot_cr = b'\r' ∷ b'\n' ∷ b'.' ∷ b'\r' ∷ []
held cr_lf_dot_dot = b'\r' ∷ b'\n' ∷ b'.' ∷ b'.' ∷ []
held cr_lf_dot_dot_cr = b'\r' ∷ b'\n' ∷ b'.' ∷ b'.' ∷ b'\r' ∷ []
held eof = []

-- After the bytes held back are given up, `b` is read as at the start.
unfoldable pub restart : State → ℕ → Bytes × State
restart s b = if b == b'\r' then (held s, cr) else (held s ++ b ∷ [], start)

pub restart_lem :
    (s : State) (b : ℕ) → restart s b ≡ (held s ++ (restart start b).0, (restart start b).1)
unfolding restart
restart_lem s b = elim (Bool-cases (b == b'\r')) [ inl e ↦ rw e (rw append-nil) | inr e ↦ rw e ]

unfoldable pub step : State → ℕ → Bytes × State
step start b = restart start b
step cr b = if b == b'\n' then ([], cr_lf) else restart cr b
step cr_lf b = if b == b'.' then ([], cr_lf_dot) else restart cr_lf b
step cr_lf_dot b =
    if b == b'\r'
    then ([], cr_lf_dot_cr)
    else if b == b'.'
    then ([], cr_lf_dot_dot)
    else restart cr_lf_dot b
step cr_lf_dot_dot b = if b == b'\r' then ([], cr_lf_dot_dot_cr) else restart cr_lf_dot_dot b
step cr_lf_dot_dot_cr b =
    if b == b'\n' then (b'\r' ∷ b'\n' ∷ b'.' ∷ [], cr_lf) else restart cr_lf_dot_dot_cr b
step cr_lf_dot_cr b = if b == b'\n' then (crlf, eof) else restart cr_lf_dot_cr b
step eof b = ([], eof)

pub length-step : (s : State) (b : ℕ) → length (step s b).0 ≤ 6
unfolding step restart
length-step start b = ground arith
length-step _ b = ground arith

module _ (r : ReadBuf) where
  open r use {Buf, filled, remaining, put_slice}

  -- The buffer after `bs` has been put into it.
  pub record Wrote (buf : Buf) (bs : Bytes) (buf' : Buf) : Type 0 where
    pub content : filled buf' ≡ filled buf ++ bs
    pub room : remaining buf' + length bs ≡ remaining buf

  pub Wrote-nil : (buf : Buf) → Wrote buf [] buf
  Wrote-nil buf = record { content = sym (append-nil (filled buf)); room = omega arith }

  pub Wrote-put :
      (bs : Bytes) (buf : Buf)
      → length bs ≤ remaining buf
      → (buf' : Buf) × (put_slice bs buf ≡ some buf') × Wrote buf bs buf'
  Wrote-put bs buf h =
      let (buf', e, c, m) = r.put_slice_fits bs buf h in (buf', e, record { content = c; room = m })

  pub Wrote-append :
      {a b c : Buf} (xs ys : Bytes) → Wrote a xs b → Wrote b ys c → Wrote a (xs ++ ys) c
  Wrote-append {a} xs ys u v = record {
    content = v.content ∙ ap (λ z. z ++ ys) u.content ∙ append_assoc (filled a) xs ys;
    room = omega (arith, length-append xs ys, u.room, v.room);
  }
