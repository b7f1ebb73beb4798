-- ===== src/Smtp/Data/Polling.antt =====
-- `poll_read` takes bytes from the stream and passes on what the decoder makes of them.
use brev.Base.{
  ◌+◌, ltb, ℕ, ◌≤◌, ◌≡◌, refl, ap, ◌≢◌, true, false, some, inl, inr, List, [], ◌∷◌, arith, length,
  length-append, ◌==◌, ==_iff, Bool-cases,
}
use brev.Smtp.Data.{
  ReadBuf, State, eof, is_eof, Arrival, byte, end, failed, pending, Poll, ready, broken, wait,
  on_arrival, poll_from, poll_read,
}
use brev.Smtp.Data.Polled.{bytes, has_end, Polled, Result, Polled-idle, Polled-byte, Polled-written}
use brev.Smtp.Data.Pure.{step, length-step}
use brev.Smtp.Data.Advance.{Does-advance}

is_eof-eq : (s : State) → is_eof s ≡ true → s ≡ eof
is_eof-eq eof e = refl
is_eof-eq _ e = cc

is_eof-ne : (s : State) → is_eof s ≡ false → s ≢ eof
is_eof-ne eof e = λ _. cc
is_eof-ne _ e = λ k. cc

enough : (n : ℕ) → 6 ≤ n → ltb n 5 ≡ false
enough n h = ground arith

unequal : (n m : ℕ) → n ≡ m → (n == m) ≡ false → ⊥
unequal n m e h = ground arith

module _ (r : ReadBuf) where
  open r use {Buf, filled, remaining}

  at_eof :
      (before : ℕ) (arrivals : List Arrival) (s : State) (buf : Buf)
      → is_eof s ≡ true
      → Result r before arrivals s buf (poll_from r before arrivals s buf)
  unfolding poll_from
  at_eof before arrivals s buf d = (ready, s, buf, arrivals, stops arrivals, idle)
    where
      idle : Polled r arrivals s buf ready s buf arrivals
      idle =
          let e = is_eof-eq s d in
          Polled-idle r arrivals s buf ready arrivals refl (omega arith) (inl e) (λ _. inl e)

      stops :
          (arrivals : List Arrival)
          → poll_from r before arrivals s buf ≡ some (ready, s, buf, arrivals)
      stops [] = rw d
      stops (a ∷ rest) = rw d

  -- A read that gives no byte ends the call.
  no_byte :
      (before : ℕ) (a : Arrival) (rest : List Arrival) (s : State) (buf : Buf) (p : Poll)
      → 6 ≤ remaining buf
      → is_eof s ≡ false
      → on_arrival r before (poll_from r before rest) a rest s buf ≡ some (p, s, buf, rest)
      → bytes (a ∷ rest) ≡ bytes rest
      → (p ≡ ready → has_end (a ∷ rest) ≡ true)
      → Result r before (a ∷ rest) s buf (poll_from r before (a ∷ rest) s buf)
  unfolding poll_from
  no_byte before a rest s buf p h d e same k = (
    p,
    s,
    buf,
    rest,
    rw (d, enough _ h) e,
    Polled-idle r (a ∷ rest) s buf p rest same (omega arith) (inr (inr (omega arith)))
        (λ z. inr (k z)),
  )

  -- A byte: the call goes on, or has written.
  a_byte :
      (before b : ℕ) (rest : List Arrival) (s : State) (buf : Buf)
      → before ≡ length (filled buf)
      → 6 ≤ remaining buf
      → is_eof s ≡ false
      → ((buf' : Buf)
          → before ≡ length (filled buf')
          → 6 ≤ remaining buf'
          → Result r before rest (step s b).1 buf' (poll_from r before rest (step s b).1 buf'))
      → Result r before (byte b ∷ rest) s buf (poll_from r before (byte b ∷ rest) s buf)
  unfolding poll_from on_arrival
  a_byte before b rest s buf e h d again =
      let n = is_eof-ne s d in
      let (buf1, done, w) = (Does-advance r s b buf n).fits (omega (arith, length-step s b)) in
      let total : length (filled buf1) ≡ before + length (step s b).0 =
        omega (arith, ap length w.content, length-append (filled buf) (step s b).0) in
      elim (Bool-cases (length (filled buf1) == before)) [
        | inl same ↦
            let (p, s', buf', left, eq, q) =
              again buf1 (ground arith) (omega (arith, w.room, (==_iff _ _).0 same)) in
            (
              p,
              s',
              buf',
              left,
              rw (d, enough _ h, done, same) eq,
              Polled-byte r b rest left s s' buf buf1 buf' p n w q,
            )
        | inr differs ↦ (
          ready,
          (step s b).1,
          buf1,
          rest,
          rw (d, enough _ h, done, differs),
          Polled-written r b rest s buf buf1 n w
              (λ z. unequal _ _ (omega (arith, total, ap length z)) differs),
        )
      ]

  poll_from-Polled :
      (before : ℕ) (arrivals : List Arrival) (s : State) (buf : Buf)
      → before ≡ length (filled buf)
      → 6 ≤ remaining buf
      → Result r before arrivals s buf (poll_from r before arrivals s buf)
  poll_from-Polled before [] s buf e h = elim (Bool-cases (is_eof s)) [
    | inl d ↦ at_eof before [] s buf d
    | inr d ↦ (
      wait,
      s,
      buf,
      [],
      unfold poll_from in rw d,
      Polled-idle r [] s buf wait [] refl (omega arith) (inr (inl refl)) (λ x. cc),
    )
  ]
  poll_from-Polled before (byte b ∷ rest) s buf e h = elim (Bool-cases (is_eof s)) [
    | inl d ↦ at_eof before (byte b ∷ rest) s buf d
    | inr d ↦
        a_byte before b rest s buf e h d (λ buf'. poll_from-Polled before rest (step s b).1 buf')
  ]
  poll_from-Polled before (end ∷ rest) s buf e h = elim (Bool-cases (is_eof s)) [
    | inl d ↦ at_eof before (end ∷ rest) s buf d
    | inr d ↦ no_byte before end rest s buf ready h d (unfold on_arrival in refl) refl (λ _. refl)
  ]
  poll_from-Polled before (failed ∷ rest) s buf e h = elim (Bool-cases (is_eof s)) [
    | inl d ↦ at_eof before (failed ∷ rest) s buf d
    | inr d ↦ no_byte before failed rest s buf broken h d (unfold on_arrival in refl) refl (λ x. cc)
  ]
  poll_from-Polled before (pending ∷ rest) s buf e h = elim (Bool-cases (is_eof s)) [
    | inl d ↦ at_eof before (pending ∷ rest) s buf d
    | inr d ↦ no_byte before pending rest s buf wait h d (unfold on_arrival in refl) refl (λ x. cc)
  ]

  -- With six free bytes in the buffer a call never panics: it takes bytes off the stream, decodes
  -- them, and appends what they give to the buffer. If it is `Ready` and has appended nothing, the
  -- message has ended or the stream has.
  pub poll_read-Polled :
      (arrivals : List Arrival) (s : State) (buf : Buf)
      → 6 ≤ remaining buf
      → (p : Poll) × (s' : State) × (buf' : Buf) × (rest : List Arrival) × (poll_read r arrivals s
            buf
          ≡ some (p, s', buf', rest))
        × Polled r arrivals s buf p s' buf' rest
  unfolding poll_read
  poll_read-Polled arrivals s buf = poll_from-Polled _ arrivals s buf refl
