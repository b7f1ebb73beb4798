-- ===== src/Smtp/Data/Truncated.antt =====
-- A message whose client stops in the middle, and the reader who reads to its end.
use brev.Base.{
  ℕ, ◌+◌, ◌≤◌, ◌<◌, ◌≡◌, refl, false, none, some, List, [], ◌∷◌, ◌++◌, arith, length, drop, All,
  Bytes, ◌==◌, ltb,
}
use brev.Smtp.Reading.{ReadEnd, whole, errored, crashed, unfinished, prepend}
use brev.Smtp.Data.{
  ReadBuf, State, start, Arrival, byte, end, ready, broken, wait, Polling, arm, follow,
  advance_within, advance, on_arrival, poll_from, poll_read,
}

module _ (r : ReadBuf) where
  open r use {Buf, filled, remaining, put_slice, put_slice_fits}

  abbrev pub on_data_polled :
      (State → List Arrival → ReadEnd State) → Bytes → State → List Arrival → ReadEnd State
  on_data_polled again [] s rest = whole [] s
  on_data_polled again (c ∷ cs) s rest = prepend (c ∷ cs) (again s rest)

  abbrev pub on_data_poll :
      (State → List Arrival → ReadEnd State) → State → Buf → Polling r → ReadEnd State
  on_data_poll again s0 buf none = crashed s0
  on_data_poll again s0 buf (some (ready, s, buf', rest)) =
      on_data_polled again (drop (length (filled buf)) (filled buf')) s rest
  on_data_poll again s0 buf (some (wait, s, buf', rest)) = again s rest
  on_data_poll again s0 buf (some (broken, s, buf', rest)) = errored s

  -- A reader polls until a call appends nothing, each time with the next of its buffers.
  unfoldable pub read_data : List Buf → State → List Arrival → ReadEnd State
  unfolding poll_read
  read_data [] s arrivals = unfinished s
  read_data (buf ∷ bufs) s arrivals =
      on_data_poll (read_data bufs) s buf (poll_read r arrivals s buf)

  length-append : (a b : Bytes) → length (a ++ b) ≡ length a + length b
  length-append [] b = omega arith
  length-append (x ∷ a) b = omega (arith, length-append a b)

  drop-append : (a b : Bytes) → drop (length a) (a ++ b) ≡ b
  drop-append [] b = refl
  drop-append (x ∷ a) b = drop-append a b

  -- A byte other than CR goes through at once.
  poll_read-plain :
      (b : ℕ) (rest : List Arrival) (buf : Buf)
      → (b == b'\r') ≡ false
      → 6 ≤ remaining buf
      → (buf' : Buf) × (poll_read r (byte b ∷ rest) start buf ≡ some (ready, start, buf', rest))
        × (filled buf' ≡ filled buf ++ b ∷ [])
  unfolding poll_read poll_from on_arrival advance advance_within arm follow
  poll_read-plain b rest buf h k =
      let (buf', e, f, room) = put_slice_fits (b ∷ []) buf (omega arith) in
      let some_room : ltb (remaining buf) 5 ≡ false = ground arith in
      let longer : (length (filled buf ++ b ∷ []) == length (filled buf)) ≡ false =
        ground (arith, length-append (filled buf) (b ∷ [])) in
      (buf', rw (some_room, h, e, f, longer) refl, f)

  poll_read-end :
      (rest : List Arrival) (buf : Buf)
      → 6 ≤ remaining buf
      → poll_read r (end ∷ rest) start buf ≡ some (ready, start, buf, rest)
  unfolding poll_read poll_from on_arrival
  poll_read-end rest buf k =
      let some_room : ltb (remaining buf) 5 ≡ false = ground arith in rw some_room refl

  -- What a client has sent before it closes its side of the connection.
  abbrev pub sent_then_closed : Bytes → List Arrival → List Arrival
  sent_then_closed [] rest = end ∷ rest
  sent_then_closed (b ∷ bs) rest = byte b ∷ sent_then_closed bs rest

  drop_self : (a : Bytes) → drop (length a) a ≡ []
  drop_self [] = refl
  drop_self (x ∷ a) = drop_self a

  -- A client that has sent DATA sends some bytes without a CR, so no end of the message, and closes its
  -- side of the connection: a reader with enough buffers, each with room for six bytes, is told that
  -- these bytes are the whole message.
  pub truncated_is_whole :
      (bufs : List Buf) (bs : Bytes) (rest : List Arrival)
      → All (λ buf. 6 ≤ remaining buf) bufs
      → length bs < length bufs
      → All (λ b. (b == b'\r') ≡ false) bs
      → read_data bufs start (sent_then_closed bs rest) ≡ whole bs start
  unfolding read_data
  truncated_is_whole [] bs rest k l h = absurd (omega arith)
  truncated_is_whole (buf ∷ bufs) [] rest k l h =
      rw (poll_read-end rest buf (k.0), drop_self (filled buf)) refl
  truncated_is_whole (buf ∷ bufs) (b ∷ bs) rest k l h =
      let (buf', e, f) = poll_read-plain b (sent_then_closed bs rest) buf (h.0) (k.0) in
      rw
        (
          e,
          f,
          drop-append (filled buf) (b ∷ []),
          truncated_is_whole bufs bs rest (k.1) (omega arith) (h.1),
        )
        refl
