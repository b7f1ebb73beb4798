-- ===== src/Smtp/Data.antt =====
-- crates/smtp/src/message/data.rs: the body of a message sent by DATA, one byte at a time.
-- A panic is `none`. The buffer that the caller lends is tokio's `ReadBuf`, which is not part of
-- the repository: it is the parameter `r`, with the two documented facts on `put_slice`.
pub mod Pure
pub mod Message
pub mod RoundTrip
pub mod Polls
pub mod Bounds
pub mod Polled
pub mod Polling
pub mod Decode
pub mod Advance
pub mod Truncated
use brev.Base.{
  ℕ, zero, suc, ◌+◌, ◌≤◌, ◌<◌, ◌≡◌, Bool, true, false, not, Option, none, some, List, [], ◌∷◌, ◌++◌,
  length, ltb, ◌==◌, if◌then◌else◌, ◌>>=◌, Bytes, crlf,
}

pub record ReadBuf : Type 1 where
  pub Buf : Type 0
  pub filled : Buf → Bytes
  pub remaining : Buf → ℕ
  pub put_slice : Bytes → Buf → Option Buf
  pub put_slice_fits :
      (bs : Bytes) (b : Buf)
      → length bs ≤ remaining b
      → (b' : Buf) × (put_slice bs b ≡ some b')
        × (filled b' ≡ filled b ++ bs)
        × (remaining b' + length bs ≡ remaining b)
  pub put_slice_panics : (bs : Bytes) (b : Buf) → remaining b < length bs → put_slice bs b ≡ none

pub data State : Type 0 where
  start cr cr_lf cr_lf_dot cr_lf_dot_cr cr_lf_dot_dot cr_lf_dot_dot_cr eof : State

-- `as_bytes`; `none` is its `unreachable!()`.
unfoldable pub as_bytes : State → Option Bytes
as_bytes cr = some (b'\r' ∷ [])
as_bytes cr_lf = some (b'\r' ∷ b'\n' ∷ [])
as_bytes cr_lf_dot = some (b'\r' ∷ b'\n' ∷ b'.' ∷ [])
as_bytes cr_lf_dot_cr = some (b'\r' ∷ b'\n' ∷ b'.' ∷ b'\r' ∷ [])
as_bytes cr_lf_dot_dot = some (b'\r' ∷ b'\n' ∷ b'.' ∷ b'.' ∷ [])
as_bytes cr_lf_dot_dot_cr = some (b'\r' ∷ b'\n' ∷ b'.' ∷ b'.' ∷ b'\r' ∷ [])
as_bytes start = none
as_bytes eof = none

abbrev pub is_start : State → Bool
is_start start = true
is_start _ = false

abbrev pub is_eof : State → Bool
is_eof eof = true
is_eof _ = false

-- One outcome of a read of the stream: a byte, its end, an error, or nothing yet.
pub data Arrival : Type 0 where
  byte : ℕ → Arrival
  end failed pending : Arrival

pub data Poll : Type 0 where
  ready broken wait : Poll

module _ (r : ReadBuf) where
  open r use {Buf, filled, remaining, put_slice}

  -- What one arm of the `match` in `advance` does: return early, or assign the state.
  pub data Arm : Type 0 where
    returned : Buf → Arm
    assigned : State → Buf → Arm

  -- The last arm, `(state, _)`: the bytes held back were no end of the message.
  unfoldable pub give_up : State → Buf → Option Arm
  give_up s buf = do bs ← as_bytes s; buf' ← put_slice bs buf; some (assigned start buf')

  unfoldable pub arm : State → ℕ → Buf → Option Arm
  unfolding give_up as_bytes
  arm start b buf =
      if b == b'\r'
      then some (assigned cr buf)
      else do buf' ← put_slice (b ∷ []) buf; some (returned buf')
  arm cr b buf = if b == b'\n' then some (assigned cr_lf buf) else give_up cr buf
  arm cr_lf b buf = if b == b'.' then some (assigned cr_lf_dot buf) else give_up cr_lf buf
  arm cr_lf_dot b buf =
      if b == b'\r'
      then some (assigned cr_lf_dot_cr buf)
      else if b == b'.'
      then some (assigned cr_lf_dot_dot buf)
      else give_up cr_lf_dot buf
  arm cr_lf_dot_dot b buf =
      if b == b'\r' then some (assigned cr_lf_dot_dot_cr buf) else give_up cr_lf_dot_dot buf
  arm cr_lf_dot_dot_cr b buf =
      if b == b'\n'
      then (do buf' ← put_slice (b'\r' ∷ b'\n' ∷ b'.' ∷ []) buf; some (assigned cr_lf buf'))
      else give_up cr_lf_dot_dot_cr buf
  arm cr_lf_dot_cr b buf =
      if b == b'\n'
      then (do buf' ← put_slice crlf buf; some (assigned eof buf'))
      else give_up cr_lf_dot_cr buf
  arm eof b buf = none

  -- `advance` calls itself when an arm has assigned `Start`.
  unfoldable pub follow : (Buf → Option (State × Buf)) → State → Arm → Option (State × Buf)
  follow again s (returned buf) = some (s, buf)
  follow again s (assigned s' buf) = if is_start s' then again buf else some (s', buf)

  -- The number counts the calls that may still be made; `advance` gives two, and the second never
  -- asks for a third.
  unfoldable pub advance_within : ℕ → State → ℕ → Buf → Option (State × Buf)
  unfolding follow
  advance_within zero s b buf = none
  advance_within (suc n) s b buf =
      let again = advance_within n start b in do a ← arm s b buf; follow again s a

  unfoldable pub advance : State → ℕ → Buf → Option (State × Buf)
  unfolding advance_within arm
  advance s b buf = advance_within 2 s b buf

  abbrev pub Polling : Type 0
  Polling = Option (Poll × State × Buf × List Arrival)

  -- The body of the loop of `poll_read`, on what the read of one byte gives; `before` is the length
  -- of `filled` at the call, and `again` the next round.
  unfoldable pub on_arrival :
      ℕ → (State → Buf → Polling) → Arrival → List Arrival → State → Buf → Polling
  on_arrival before again (byte b) rest s buf = do
    next ← advance s b buf
    let (s', buf') = next
    if not (length (filled buf') == before) then some (ready, s', buf', rest) else again s' buf'
  on_arrival before again end rest s buf = some (ready, s, buf, rest)
  on_arrival before again failed rest s buf = some (broken, s, buf, rest)
  on_arrival before again pending rest s buf = some (wait, s, buf, rest)

  -- The stream is the list of the outcomes that its reads will have; where it ends, nothing has
  -- arrived yet.
  unfoldable pub poll_from : ℕ → List Arrival → State → Buf → Polling
  poll_from before [] s buf = if is_eof s then some (ready, s, buf, []) else some (wait, s, buf, [])
  poll_from before (a ∷ rest) s buf =
      let again = poll_from before rest in
      if is_eof s
      then some (ready, s, buf, a ∷ rest)
      else if ltb (remaining buf) 5
      then some (wait, s, buf, a ∷ rest)
      else on_arrival before again a rest s buf

  unfoldable pub poll_read : List Arrival → State → Buf → Polling
  unfolding poll_from on_arrival advance
  poll_read arrivals s buf = poll_from (length (filled buf)) arrivals s buf
