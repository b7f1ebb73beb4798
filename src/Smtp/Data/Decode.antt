-- ===== src/Smtp/Data/Decode.antt =====
-- What the DATA reader decodes, described over the whole text: at each place it looks for the end
-- of the message and for an escaped lone dot, and copies one byte where it finds neither.
use brev.Base.{
  ℕ, zero, suc, ◌≡◌, refl, sym, ap, ◌∙◌, ◌≢◌, Bool, true, false, Option, none, some, ◌⊎◌, inl, inr,
  ◌&&◌, [], ◌∷◌, ◌++◌, arith, ◌==◌, ==_iff, if◌then◌else◌, Bytes, crlf, Bool-cases, append-nil,
  append_assoc, codes,
}
use brev.Smtp.Data.{
  State, start, cr, cr_lf, cr_lf_dot, cr_lf_dot_cr, cr_lf_dot_dot, cr_lf_dot_dot_cr, eof,
}
use brev.Smtp.Data.Pure.{held, restart, restart_lem, step}

abbrev pub starts_with : Bytes → Bytes → Bool
starts_with [] s = true
starts_with (p ∷ ps) [] = false
starts_with (p ∷ ps) (c ∷ cs) = (c == p) && starts_with ps cs

abbrev pub terminator : Bytes
terminator = codes "\r\n.\r\n"

abbrev pub escaped_dot : Bytes
escaped_dot = codes "\r\n..\r\n"

-- The message so far, and what follows its end if that has been seen.
abbrev pub Decoded : Type 0
Decoded = Bytes × Option Bytes

abbrev pub prepend : Bytes → Decoded → Decoded
prepend bs d = (bs ++ d.0, d.1)

-- The number counts the bytes that are still to be passed over.
unfoldable pub decode_from : ℕ → Bytes → Decoded
decode_from skip [] = ([], none)
decode_from (suc n) (c ∷ cs) = decode_from n cs
decode_from zero (c ∷ cs) =
    let ended : Decoded = (crlf, some (drop_four cs)) in
    let dotted = prepend (codes "\r\n.") (decode_from 3 cs) in
    let plain = prepend (c ∷ []) (decode_from 0 cs) in
    if starts_with terminator (c ∷ cs)
    then ended
    else if starts_with escaped_dot (c ∷ cs)
    then dotted
    else plain
  where
    drop_four : Bytes → Bytes
    drop_four (a ∷ b ∷ c ∷ d ∷ rest) = rest
    drop_four _ = []

abbrev pub decode : Bytes → Decoded
decode = decode_from 0

-- The reader takes the bytes of `read` from state `s`, writes `out` and is then in state `s'`.
pub data Feeds (s' : State) : State → Bytes → Bytes → Type 0 where
  stop : {s : State} → s ≡ s' → Feeds s' s [] []
  more :
      {s : State} {b : ℕ} {bs out : Bytes}
      → s ≢ eof
      → Feeds s' (step s b).1 bs out
      → Feeds s' s (b ∷ bs) ((step s b).0 ++ out)

decode-restart :
    (b : ℕ) (rest : Bytes)
    → decode (b ∷ rest) ≡ prepend (restart start b).0 (decode (held (restart start b).1 ++ rest))
unfolding decode_from restart
decode-restart b rest = ground arith

-- Bytes held back that turn out to be no end of the message are copied.
decode-give_up :
    (s : State) (b : ℕ) (rest : Bytes)
    → decode (held s ++ b ∷ rest) ≡ prepend (held s) (decode (b ∷ rest))
    → decode (held s ++ b ∷ rest) ≡ prepend (restart s b).0 (decode (held (restart s b).1 ++ rest))
decode-give_up s b rest h = h ∙ rw (decode-restart b rest, restart_lem s b) (rw append_assoc)

module _ (b : ℕ) (rest : Bytes) where
  abbrev Copied : State → Type 0
  Copied s = decode (held s ++ b ∷ rest) ≡ prepend (held s) (decode (b ∷ rest))

  Copied-cr : (b == b'\n') ≡ false → Copied cr
  unfolding decode_from
  Copied-cr e = rw (e)

  Copied-cr_lf : (b == b'.') ≡ false → Copied cr_lf
  unfolding decode_from
  Copied-cr_lf e = rw (e)

  Copied-cr_lf_dot : (b == b'\r') ≡ false → (b == b'.') ≡ false → Copied cr_lf_dot
  unfolding decode_from
  Copied-cr_lf_dot e d = rw (e, d)

  Copied-cr_lf_dot_cr : (b == b'\n') ≡ false → Copied cr_lf_dot_cr
  unfolding decode_from
  Copied-cr_lf_dot_cr e = rw (e)

  Copied-cr_lf_dot_dot : (b == b'\r') ≡ false → Copied cr_lf_dot_dot
  unfolding decode_from
  Copied-cr_lf_dot_dot e = rw (e)

  Copied-cr_lf_dot_dot_cr : (b == b'\n') ≡ false → Copied cr_lf_dot_dot_cr
  unfolding decode_from
  Copied-cr_lf_dot_dot_cr e = rw (e)

-- One step of the reader, read as one step of `decode` on the bytes held back and what follows.
decode-step :
    (s : State) (b : ℕ) (rest : Bytes)
    → s ≢ eof
    → (step s b).1 ≢ eof
    → decode (held s ++ b ∷ rest) ≡ prepend (step s b).0 (decode (held (step s b).1 ++ rest))
unfolding step
decode-step start b rest h k = decode-restart b rest
decode-step cr b rest h k = elim (Bool-cases (b == b'\n')) [
  | inl e ↦ rw ((==_iff b _).0 e)
  | inr e ↦ rw e (decode-give_up cr b rest (Copied-cr b rest e))
]
decode-step cr_lf b rest h k = elim (Bool-cases (b == b'.')) [
  | inl e ↦ rw ((==_iff b _).0 e)
  | inr e ↦ rw e (decode-give_up cr_lf b rest (Copied-cr_lf b rest e))
]
decode-step cr_lf_dot_dot b rest h k = elim (Bool-cases (b == b'\r')) [
  | inl e ↦ rw ((==_iff b _).0 e)
  | inr e ↦ rw e (decode-give_up cr_lf_dot_dot b rest (Copied-cr_lf_dot_dot b rest e))
]
decode-step cr_lf_dot b rest h k = elim (Bool-cases (b == b'\r')) [
  | inl e ↦ rw ((==_iff b _).0 e)
  | inr e ↦ elim (Bool-cases (b == b'.')) [
    | inl d ↦ rw ((==_iff b _).0 d)
    | inr d ↦ rw (e, d) (decode-give_up cr_lf_dot b rest (Copied-cr_lf_dot b rest e d))
  ]
]
decode-step cr_lf_dot_cr b rest h k = elim (Bool-cases (b == b'\n')) [
  | inl e ↦ absurd (k (rw e))
  | inr e ↦ rw e (decode-give_up cr_lf_dot_cr b rest (Copied-cr_lf_dot_cr b rest e))
]
decode-step cr_lf_dot_dot_cr b rest h k = elim (Bool-cases (b == b'\n')) [
  | inl e ↦ rw ((==_iff b _).0 e) (unfold decode_from in refl)
  | inr e ↦ rw e (decode-give_up cr_lf_dot_dot_cr b rest (Copied-cr_lf_dot_dot_cr b rest e))
]
decode-step eof b rest h k = absurd (h refl)

-- The step that ends the message.
decode_end :
    (s : State) (b : ℕ) (rest : Bytes)
    → s ≢ eof
    → (step s b).1 ≡ eof
    → decode (held s ++ b ∷ rest) ≡ ((step s b).0, some rest)
unfolding decode_from step restart
decode_end cr_lf_dot_cr b rest h k = ground arith
decode_end _ b rest h k = ground arith

decode-held : (s : State) → s ≢ eof → decode (held s) ≡ (held s, none)
unfolding decode_from
decode-held start h = refl
decode-held eof h = absurd (h refl)
decode-held _ h = refl

pub eof-cases : (s : State) → (s ≡ eof) ⊎ (s ≢ eof)
eof-cases eof = inl refl
eof-cases start = inr (λ e. cc)
eof-cases _ = inr (λ e. cc)

Feeds-eof : {s s' : State} {bs out : Bytes} → Feeds s' s bs out → s ≡ eof → (bs ≡ []) × (out ≡ [])
Feeds-eof (stop e) k = (refl, refl)
Feeds-eof (more n f) k = absurd (n k)

-- The end of the message has been read: `decode` finds it at the same place, with what follows.
pub decode_complete :
    {s : State} {read out : Bytes} (rest : Bytes)
    → Feeds eof s read out
    → s ≢ eof
    → decode (held s ++ (read ++ rest)) ≡ (out, some rest)
decode_complete rest (stop e) h = absurd (h e)
decode_complete rest (more {s} {b} {bs} {out} n f) h = elim (eof-cases (step s b).1) [
  | inl e ↦
      let (no_bytes, no_out) = Feeds-eof f e in
      rw (no_bytes, no_out, append-nil) (decode_end s b rest n e)
  | inr k ↦ decode-step s b (bs ++ rest) n k ∙ ap (prepend (step s b).0) (decode_complete rest f k)
]

-- The end has not been read: `decode` has written the same, and also what the reader holds back.
pub decode_partial :
    {s' s : State} {read out : Bytes}
    → Feeds s' s read out
    → s' ≢ eof
    → decode (held s ++ read) ≡ (out ++ held s', none)
decode_partial {s'} {s} (stop e) h = rw (append-nil, e) (decode-held s' h)
decode_partial {s'} (more {s} {b} {bs} {out} n f) h = elim (eof-cases (step s b).1) [
  | inl e ↦ absurd (h (Feeds-stays f e))
  | inr k ↦
      decode-step s b bs n k ∙ ap (prepend (step s b).0) (decode_partial f h) ∙ rw append_assoc
]
  where
    Feeds-stays : {s s' : State} {bs out : Bytes} → Feeds s' s bs out → s ≡ eof → s' ≡ eof
    Feeds-stays (stop e) k = sym e ∙ k
    Feeds-stays (more n f) k = absurd (n k)

pub Feeds-append :
    {s' s1 s : State} {xs ys out1 out : Bytes}
    → Feeds s1 s xs out1
    → Feeds s' s1 ys out
    → Feeds s' s (xs ++ ys) (out1 ++ out)
Feeds-append (stop e) g = rw e g
Feeds-append {s'} {ys} {out} (more {s} {b} {bs} {out = tail} n f) g =
    rw append_assoc (more n (Feeds-append f g))
