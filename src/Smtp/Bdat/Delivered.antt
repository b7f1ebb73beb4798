-- ===== src/Smtp/Bdat/Delivered.antt =====
-- A message that a client sends in chunks, and the reader who reads it to its end.
use brev.Base.{
  ℕ, zero, suc, ◌+◌, ◌-◌, ◌≤◌, ◌<◌, ◌≡◌, refl, sym, ap, ◌∙◌, subst, Bool, true, false, List, [],
  ◌∷◌, ◌++◌, append_assoc, arith, length, take, drop, Bytes, ◌==◌, leb, Bool-cases, inl, inr,
}
use brev.Io.{World, returned}
use brev.Io.Settles.{Prompt}
use brev.Nom.{Nom}
use brev.Smtp.Command.{EmailAddress}
use brev.Smtp.Bdat.{next_bdat}
use brev.Smtp.Bdat.Ends.{Took, Took-next_bdat}
use brev.Smtp.Bdat.Body.{
  reading, Piece, piece, no_piece, leftover, Bdat, ready, wait, Polled, min, take_from, take_read,
  on_taken, on_next_bdat, bdat_turn, poll_bdat_within,
}

module _ (nom : Nom) (mail : EmailAddress) where
  -- What is left of a message, with the rest of its present chunk: the text to come, and how often
  -- the client pauses inside a chunk. Between two chunks comes a BDAT command; the last chunk is not
  -- a `BDAT 0 LAST` of its own. `z` is the connection behind the last of these commands.
  pub data Sends (z : World) : World → List Piece → ℕ → Bool → Bytes → ℕ → Type 0 where
    finished : {rest : List Piece} → Sends z z rest 0 true [] 0
    bytes :
        {w : World} {rest : List Piece} {limit : ℕ} {last : Bool} {text : Bytes} {stops : ℕ} (b : ℕ)
        (bs : Bytes)
        → length (b ∷ bs) ≤ limit
        → Sends z w rest (limit - length (b ∷ bs)) last text stops
        → Sends z w (piece (b ∷ bs) ∷ rest) limit last ((b ∷ bs) ++ text) stops
    pauses :
        {w : World} {rest : List Piece} {limit : ℕ} {last : Bool} {text : Bytes} {stops : ℕ}
        → 0 < limit
        → Sends z w rest limit last text stops
        → Sends z w (no_piece ∷ rest) limit last text (suc stops)
    next :
        {w w' : World} {rest : List Piece} {size : ℕ} {last : Bool} {text : Bytes} {stops : ℕ}
        → next_bdat nom mail w ≡ (returned (size, last), w')
        → ((size == 0) ≡ true → last ≡ false)
        → Sends z w' rest size last text stops
        → Sends z w rest 0 false text stops

  -- The message inside, between two calls.
  abbrev pub at_chunk : World → List Piece → ℕ → Bool → Bdat
  at_chunk w rest limit last = record { connection = w; pieces = rest; inner = reading limit last }

  -- What a call gives while `text` is to come: the end, if it is nothing; bytes of it, and the rest is
  -- to come; or nothing, at a pause.
  pub data Gives (z : World) : Bytes → ℕ → Polled → Type 0 where
    ended : {rest : List Piece} → Gives z [] 0 (ready, [], at_chunk z rest 0 true)
    gave :
        {w : World} {rest : List Piece} {limit : ℕ} {last : Bool} {text : Bytes} {stops : ℕ} (b : ℕ)
        (bs : Bytes)
        → Prompt w.answers
        → Sends z w rest limit last text stops
        → Gives z ((b ∷ bs) ++ text) stops (ready, b ∷ bs, at_chunk w rest limit last)
    paused :
        {w : World} {rest : List Piece} {limit : ℕ} {last : Bool} {text : Bytes} {stops : ℕ}
        → Prompt w.answers
        → Sends z w rest limit last text stops
        → Gives z text (suc stops) (wait, [], at_chunk w rest limit last)

  Sends-leftover :
      (z w : World) (rest : List Piece) (limit : ℕ) (last : Bool) (text : Bytes) (stops : ℕ)
      (bs : Bytes)
      → length bs ≤ limit
      → Sends z w rest (limit - length bs) last text stops
      → Sends z w (leftover bs rest) limit last (bs ++ text) stops
  Sends-leftover z w rest limit last text stops [] h s =
      let same : limit - 0 ≡ limit = omega arith in
      subst (λ n. Sends z w rest n last text stops) same s
  Sends-leftover z w rest limit last text stops (b ∷ bs) h s = bytes b bs h s

  take-drop : (n : ℕ) (bs : Bytes) → take n bs ++ drop n bs ≡ bs
  take-drop zero bs = refl
  take-drop (suc n) [] = refl
  take-drop (suc n) (b ∷ bs) = rw (take-drop n bs) refl

  length-take-drop : (n : ℕ) (bs : Bytes) → length (take n bs) + length (drop n bs) ≡ length bs
  length-take-drop zero bs = omega arith
  length-take-drop (suc n) [] = omega arith
  length-take-drop (suc n) (b ∷ bs) = omega (arith, length-take-drop n bs)

  -- A part of a piece is taken.
  Sends-part :
      (z w : World) (rest : List Piece) (limit : ℕ) (last : Bool) (text : Bytes) (stops n : ℕ)
      (b : ℕ) (bs : Bytes)
      → length (b ∷ bs) ≤ limit
      → Sends z w rest (limit - length (b ∷ bs)) last text stops
      → Sends z w
          (leftover (drop n bs) rest)
          (limit - length (b ∷ take n bs))
          last
          (drop n bs ++ text)
          stops
  Sends-part z w rest limit last text stops n b bs h s =
      let sum = length-take-drop n bs in
      let same : limit - length (b ∷ bs) ≡ (limit - length (b ∷ take n bs)) - length (drop n bs) =
        omega (arith, sum) in
      Sends-leftover z w rest (limit - length (b ∷ take n bs)) last text stops (drop n bs)
        (omega (arith, sum)) (rw (← same) s)

  min-suc : (limit room : ℕ) → 0 < limit → 0 < room → (n : ℕ) × (min limit room ≡ suc n)
  min-suc zero room h k = absurd (omega arith)
  min-suc (suc limit) zero h k = absurd (omega arith)
  min-suc (suc limit) (suc room) h k = elim (Bool-cases (leb (suc limit) (suc room))) [
    | inl e ↦ (limit, rw e refl)
    | inr e ↦ (room, rw e refl)
  ]

  positive : (limit : ℕ) → 0 < limit → (limit == 0) ≡ false
  positive limit h = ground arith

  -- The end of the message is not `BDAT 0 LAST`.
  on_next_bdat-goes_on :
      (again : Bdat → Polled) (b : Bdat) (size : ℕ) (last : Bool)
      → ((size == 0) ≡ true → last ≡ false)
      → on_next_bdat again b (returned (size, last))
        ≡ again (record b { inner = reading size last })
  unfolding on_next_bdat
  on_next_bdat-goes_on again b size last h = elim (Bool-cases (size == 0)) [
    | inl e ↦ rw (h e, e) refl
    | inr e ↦ rw e refl
  ]

  -- A call with some room and enough fuel, on what the client sends.
  pub poll-Gives :
      (fuel room : ℕ) {z w : World} {pieces : List Piece} {limit : ℕ} {last : Bool} {text : Bytes}
      {stops : ℕ}
      → 0 < room
      → Prompt w.answers
      → length w.incoming + length w.incoming + 2 < fuel
      → Sends z w pieces limit last text stops
      → Gives z text stops (poll_bdat_within nom mail fuel room (at_chunk w pieces limit last))
  unfolding poll_bdat_within bdat_turn take_read take_from on_taken
  poll-Gives zero room k p f s = absurd (omega arith)
  poll-Gives (suc fuel) room k p f finished = ended
  poll-Gives (suc fuel) room {z} {w = w} {limit = limit} {last} k p f
        (bytes {rest = rest} {text = text} {stops = stops} b bs l s) =
      let (n, e) = min-suc limit room (omega (arith, l)) k in
      rw (positive limit (omega (arith, l)), e)
        (rw (← text_split n)
          (gave b (take n bs) p (Sends-part z w rest limit last text stops n b bs l s)))
    where
      split : (n : ℕ) → take n bs ++ (drop n bs ++ text) ≡ bs ++ text
      split n =
          sym (append_assoc (take n bs) (drop n bs) text) ∙ ap (λ z. z ++ text) (take-drop n bs)

      text_split : (n : ℕ) → (b ∷ take n bs) ++ (drop n bs ++ text) ≡ (b ∷ bs) ++ text
      text_split n = ap (λ z. b ∷ z) (split n)
  poll-Gives (suc fuel) room {limit = limit} k p f (pauses l s) = rw (positive limit l) (paused p s)
  poll-Gives (suc zero) room k p f (next h g s) = absurd (omega arith)
  poll-Gives (suc (suc fuel)) room {pieces = pieces} k p f
        (next {w} {w'} {size = size} {last} h g s) =
      let t = subst (λ z. Took (length w.incoming) z.0 z.1) h (Took-next_bdat nom mail w p) in
      rw
        (
          h,
          on_next_bdat-goes_on (poll_bdat_within nom mail fuel room) (at_chunk w' pieces size last)
              size last g,
        )
        (poll-Gives fuel room k t.prompt (omega (arith, f, t.took (size, last) refl)) s)
