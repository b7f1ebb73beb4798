-- ===== src/Smtp/Data/Polled.antt =====
-- What a call of `poll_read` has done, and how a step before it adds to that.
use brev.Base.{
  ◌<◌, ℕ, ◌≤◌, ◌≡◌, refl, sym, ap, ◌∙◌, ◌≢◌, Bool, true, false, some, ◌⊎◌, inr, List, [], ◌∷◌, ◌++◌,
  arith, length, Bytes, append-nil, append_assoc,
}
use brev.Smtp.Data.{ReadBuf, State, eof, Arrival, byte, end, Poll, ready, Polling}
use brev.Smtp.Data.Pure.{step, Wrote}
use brev.Smtp.Data.Decode.{Feeds, stop, more}

-- The bytes that arrive.
abbrev pub bytes : List Arrival → Bytes
bytes [] = []
bytes (byte b ∷ rest) = b ∷ bytes rest
bytes (_ ∷ rest) = bytes rest

-- The stream has been seen to end.
abbrev pub has_end : List Arrival → Bool
has_end [] = false
has_end (end ∷ rest) = true
has_end (_ ∷ rest) = has_end rest

nil_of_append : (xs ys : Bytes) → xs ++ ys ≡ [] → ys ≡ []
nil_of_append [] ys h = h
nil_of_append (x ∷ xs) ys h = cc

module _ (r : ReadBuf) where
  open r use {Buf, filled, remaining}

  -- What a call has done that leaves the state `s'`, the buffer `buf'` and the stream `rest`.
  pub record Polled (arrivals : List Arrival) (s : State) (buf : Buf) (p : Poll) (s' : State)
      (buf' : Buf) (rest : List Arrival) : Type 0 where
    pub read : Bytes
    pub out : Bytes
    pub feeds : Feeds s' s read out
    pub taken : bytes arrivals ≡ read ++ bytes rest
    pub wrote : filled buf' ≡ filled buf ++ out
    pub shorter : length rest ≤ length arrivals
    pub left : (s ≡ eof) ⊎ ((arrivals ≡ []) ⊎ (length rest < length arrivals))
    pub quiet : p ≡ ready → out ≡ [] → (s' ≡ eof) ⊎ (has_end arrivals ≡ true)

  abbrev pub Result : ℕ → List Arrival → State → Buf → Polling r → Type 0
  Result before arrivals s buf o =
      (p : Poll) × (s' : State) × (buf' : Buf) × (rest : List Arrival) × (o
        ≡ some (p, s', buf', rest))
      × Polled arrivals s buf p s' buf' rest

  pub Polled-idle :
      (arrivals : List Arrival) (s : State) (buf : Buf) (p : Poll) (rest : List Arrival)
      → bytes arrivals ≡ bytes rest
      → length rest ≤ length arrivals
      → (s ≡ eof) ⊎ ((arrivals ≡ []) ⊎ (length rest < length arrivals))
      → (p ≡ ready → (s ≡ eof) ⊎ (has_end arrivals ≡ true))
      → Polled arrivals s buf p s buf rest
  Polled-idle arrivals s buf p rest h m l k = record {
    read = [];
    out = [];
    feeds = stop refl;
    taken = h;
    wrote = sym (append-nil (filled buf));
    shorter = m;
    left = l;
    quiet = λ e _. k e;
  }

  pub Polled-byte :
      (b : ℕ) (arrivals rest : List Arrival) (s s' : State) (buf buf1 buf' : Buf) (p : Poll)
      → s ≢ eof
      → Wrote r buf (step s b).0 buf1
      → Polled arrivals (step s b).1 buf1 p s' buf' rest
      → Polled (byte b ∷ arrivals) s buf p s' buf' rest
  Polled-byte b arrivals rest s s' buf buf1 buf' p n w q = record {
    read = b ∷ q.read;
    out = (step s b).0 ++ q.out;
    feeds = more n q.feeds;
    taken = ap (◌∷◌ b) q.taken;
    wrote = q.wrote ∙ ap (λ z. z ++ q.out) w.content ∙ append_assoc (filled buf) (step s b).0 q.out;
    shorter = omega (arith, q.shorter);
    left = inr (inr (omega (arith, q.shorter)));
    quiet = λ e h. q.quiet e (nil_of_append (step s b).0 q.out h);
  }

  -- The byte has made the reader write, so the call is over.
  pub Polled-written :
      (b : ℕ) (rest : List Arrival) (s : State) (buf buf1 : Buf)
      → s ≢ eof
      → Wrote r buf (step s b).0 buf1
      → (step s b).0 ≢ []
      → Polled (byte b ∷ rest) s buf ready (step s b).1 buf1 rest
  Polled-written b rest s buf buf1 n w k = record {
    read = b ∷ [];
    out = (step s b).0 ++ [];
    feeds = more n (stop refl);
    taken = refl;
    wrote = rw append-nil w.content;
    shorter = omega arith;
    left = inr (inr (omega arith));
    quiet = λ e h. absurd (k (rw append-nil at h));
  }
