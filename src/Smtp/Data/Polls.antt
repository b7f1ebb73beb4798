-- ===== src/Smtp/Data/Polls.antt =====
-- The reader over many calls: what a caller gets of a whole message.
use brev.Base.{
  ℕ, zero, suc, ◌⊎◌, inl, inr, refl, arith, length, append-nil, ◌≤◌, ◌≡◌, sym, ap, ◌∙◌, ◌≢◌, none,
  some, List, [], ◌∷◌, ◌++◌, Bytes, append_assoc,
}
use brev.Smtp.Data.{ReadBuf, State, eof, start, Arrival, Poll, poll_read}
use brev.Smtp.Data.Pure.{held}
use brev.Smtp.Data.Decode.{
  Feeds, Feeds-append, stop, eof-cases, decode, decode_complete, decode_partial,
}
use brev.Smtp.Data.Polled.{bytes}
use brev.Smtp.Data.Polling.{poll_read-Polled}

append_cancel : (xs ys zs : Bytes) → xs ++ ys ≡ xs ++ zs → ys ≡ zs
append_cancel [] ys zs h = h
append_cancel (x ∷ xs) ys zs h = append_cancel xs ys zs (cc)

module _ (r : ReadBuf) where
  open r use {Buf, filled, remaining}

  -- Calls of `poll_read` one after another, each with a buffer that the caller chooses; `out` is all
  -- that they have appended.
  pub data Polls (s' : State) (rest : List Arrival) : State → List Arrival → Bytes → Type 0 where
    done :
        {s : State} {arrivals : List Arrival}
        → s ≡ s'
        → arrivals ≡ rest
        → Polls s' rest s arrivals []
    call :
        {p : Poll} {s s1 : State} {buf buf1 : Buf} {arrivals arrivals1 : List Arrival}
        (out1 : Bytes) {out : Bytes}
        → 6 ≤ remaining buf
        → poll_read r arrivals s buf ≡ some (p, s1, buf1, arrivals1)
        → filled buf1 ≡ filled buf ++ out1
        → Polls s' rest s1 arrivals1 out
        → Polls s' rest s arrivals (out1 ++ out)

  pub Polls-Feeds :
      {s' : State} {rest : List Arrival} {s : State} {arrivals : List Arrival} {out : Bytes}
      → Polls s' rest s arrivals out
      → (read : Bytes) × Feeds s' s read out × (bytes arrivals ≡ read ++ bytes rest)
  Polls-Feeds (done e f) = ([], stop e, ap bytes f)
  Polls-Feeds {s'} {rest}
        (call {p} {s} {s1} {buf} {buf1} {arrivals} {arrivals1} out1 {out} h e w later) =
      let (read, f, taken) = Polls-Feeds later in
      let (p', s2, buf2, left, eq, q) = poll_read-Polled r arrivals s buf h in
      let same : s2 ≡ s1 = cc (eq, e) in
      let same_buf : buf2 ≡ buf1 = cc (eq, e) in
      let same_rest : left ≡ arrivals1 = cc (eq, e) in
      let same_out : q.out ≡ out1 =
        append_cancel (filled buf) q.out out1 (cc (q.wrote, w, same_buf)) in
      (
        q.read ++ read,
        Feeds-append (rw (← same, ← same_out) q.feeds) f,
        q.taken ∙ rw (same_rest, taken) (sym (append_assoc q.read read (bytes rest))),
      )

  -- Whatever buffers the caller brings and however the bytes arrive: when the reader has reached the
  -- end of the message, what it has appended and what it has left unread are what `decode` gives.
  pub Polls-decode_complete :
      {rest arrivals : List Arrival} {out : Bytes}
      → Polls eof rest start arrivals out
      → decode (bytes arrivals) ≡ (out, some (bytes rest))
  Polls-decode_complete {rest} p =
      let (read, f, taken) = Polls-Feeds p in rw taken (decode_complete (bytes rest) f (λ e. cc))

  -- Whatever buffers with room for six bytes the caller brings and however the bytes arrive: where the
  -- reader has not reached the end of the message, what it has appended is what `decode` gives for the
  -- bytes read, but for the bytes held back; and `decode` sees no end of the message there either.
  pub Polls-decode_partial :
      {s' : State} {rest arrivals : List Arrival} {out : Bytes}
      → Polls s' rest start arrivals out
      → s' ≢ eof
      → (read : Bytes) × (bytes arrivals ≡ read ++ bytes rest)
        × (decode read ≡ (out ++ held s', none))
  Polls-decode_partial p h =
      let (read, f, taken) = Polls-Feeds p in (read, taken, decode_partial f h)

  -- The caller can always bring a buffer with room for six bytes.
  module _ (fresh : Buf) (room : 6 ≤ remaining fresh) where
    -- Reading on ends: at the end of the message, or where nothing more has arrived.
    Polls-total :
        (n : ℕ) (arrivals : List Arrival) (s : State)
        → length arrivals ≤ n
        → (s' : State) × (rest : List Arrival) × (out : Bytes) × Polls s' rest s arrivals out
          × ((s' ≡ eof) ⊎ (rest ≡ []))
    Polls-total zero [] s h = (s, [], [], done refl refl, inr refl)
    Polls-total zero (a ∷ rest) s h = absurd (omega arith)
    Polls-total (suc n) arrivals s h =
        let (p, s1, buf1, left, e, q) = poll_read-Polled r arrivals s fresh room in
        elim q.left [
          | inl d ↦ (s, arrivals, [], done refl refl, inl d)
          | inr (inl d) ↦ (s, arrivals, [], done refl refl, inr d)
          | inr (inr d) ↦
              let (s', rest, out, polls, ends) = Polls-total n left s1 (omega arith) in
              (s', rest, q.out ++ out, call q.out room e q.wrote polls, ends)
        ]

    -- Where the caller can bring a buffer with room for six bytes, and the bytes that arrive hold a
    -- whole message, some number of calls with such buffers comes to its end: they have appended the
    -- message as `decode` gives it, and left unread what follows it.
    pub Polls-decode :
        (arrivals : List Arrival) (message tail : Bytes)
        → decode (bytes arrivals) ≡ (message, some tail)
        → (rest : List Arrival) × Polls eof rest start arrivals message × (bytes rest ≡ tail)
    Polls-decode arrivals message tail h =
        let (s', rest, out, polls, ends) =
          Polls-total (length arrivals) arrivals start (omega arith) in
        elim (eof-cases s') [
          | inl e ↦ ended rest out (rw e at polls)
          | inr n ↦ elim ends [
            | inl e ↦ absurd (n e)
            | inr e ↦ absurd (unended s' rest out polls n e)
          ]
        ]
      where
        ended :
            (rest : List Arrival) (out : Bytes)
            → Polls eof rest start arrivals out
            → (rest : List Arrival) × Polls eof rest start arrivals message × (bytes rest ≡ tail)
        ended rest out polls =
            let same = Polls-decode_complete polls in
            let text : out ≡ message = cc (same, h) in (rest, rw (← text) polls, cc (same, h))

        unended :
            (s' : State) (rest : List Arrival) (out : Bytes)
            → Polls s' rest start arrivals out
            → s' ≢ eof
            → rest ≡ []
            → ⊥
        unended s' rest out polls n e =
            let (read, taken, partial) = Polls-decode_partial polls n in
            let whole : bytes arrivals ≡ read = taken ∙ rw e (append-nil read) in
            cc (partial, h, whole)
