-- ===== src/Smtp/Bdat/Chunks.antt =====
-- What a reader of a BDAT message gets, and what becomes of the message.
use brev.Base.{
  ℕ, zero, suc, ◌+◌, ◌-◌, ◌≤◌, ◌<◌, ◌≡◌, refl, ◌≢◌, Bool, true, false, List, [], ◌∷◌, arith, length,
  take, Bytes, ◌==◌,
}
use brev.Io.{World, returned, panicked}
use brev.Nom.{Nom}
use brev.Smtp.Command.{EmailAddress}
use brev.Smtp.Bdat.{next_bdat}
use brev.Smtp.Bdat.Body.{
  reading, completed, Piece, piece, broken_piece, no_piece, Bdat, ready, Polled, min, got,
  take_from, take_read, has_stream, on_taken, on_next_bdat, bdat_turn, poll_bdat_within, poll_bdat,
  answer_bdat, accept_bdat, reject_bdat,
}

length-take : (n : ℕ) (bs : Bytes) → length (take n bs) ≤ n
length-take zero bs = omega arith
length-take (suc n) [] = omega arith
length-take (suc n) (b ∷ bs) = omega (arith, length-take n bs)

min_bounds : (a b n : ℕ) → n ≤ min a b → (n ≤ a) × (n ≤ b)
min_bounds a b n h = ground arith

-- The bytes come from the chunk, and fit into the buffer; without any, no end is reported.
pub record InChunk (limit room : ℕ) (last : Bool) (p : Polled) : Type 0 where
  pub in_chunk : length p.1 ≤ limit
  pub in_buffer : length p.1 ≤ room
  pub left : p.1 ≢ [] → p.2.inner ≡ reading (limit - length p.1) last
  pub goes_on : p.0 ≡ ready → p.1 ≢ []

on_taken-got :
    (again : Bdat → Polled) (limit room : ℕ) (last : Bool) (b : Bdat) (bs : Bytes)
    (rest : List Piece)
    → 0 < limit
    → length bs ≤ min limit room
    → InChunk limit room last (on_taken again limit last b (got bs rest))
unfolding on_taken
on_taken-got again limit room last b [] rest h l =
    let inside : (limit == 0) ≡ false = ground arith in
    rw inside (record {
      in_chunk = omega arith;
      in_buffer = omega arith;
      left = λ d. absurd (d refl);
      goes_on = λ e. cc;
    })
on_taken-got again limit room last b (c ∷ cs) rest h l =
    let (in_limit, in_room) = min_bounds limit room (length (c ∷ cs)) l in
    record { in_chunk = in_limit; in_buffer = in_room; left = λ d. refl; goes_on = λ e z. cc }

on_taken-InChunk :
    (again : Bdat → Polled) (limit room : ℕ) (last : Bool) (b : Bdat) (pieces : List Piece)
    → 0 < limit
    → InChunk limit room last (on_taken again limit last b (take_from (min limit room) pieces))
unfolding on_taken take_from
on_taken-InChunk again limit room last b [] h = record {
  in_chunk = omega arith;
  in_buffer = omega arith;
  left = λ d. absurd (d refl);
  goes_on = λ e. cc;
}
on_taken-InChunk again limit room last b (piece bs ∷ rest) h =
    on_taken-got again limit room last b (take (min limit room) bs) _ h
      (length-take (min limit room) bs)
on_taken-InChunk again limit room last b (broken_piece z ∷ rest) h = record {
  in_chunk = omega arith;
  in_buffer = omega arith;
  left = λ d. absurd (d refl);
  goes_on = λ e. cc;
}
on_taken-InChunk again limit room last b (no_piece ∷ rest) h = record {
  in_chunk = omega arith;
  in_buffer = omega arith;
  left = λ d. absurd (d refl);
  goes_on = λ e. cc;
}

module _ (nom : Nom) (mail : EmailAddress) where
  bdat_turn-InChunk :
      (again : Bdat → Polled) (room limit : ℕ) (last : Bool) (b : Bdat)
      → 0 < limit
      → InChunk limit room last (bdat_turn nom mail again room b (reading limit last))
  unfolding bdat_turn take_read
  bdat_turn-InChunk again room limit last b h =
      let inside : (limit == 0) ≡ false = ground arith in
      rw inside (on_taken-InChunk again limit room last b b.pieces h)

  -- While bytes of a chunk are left: a call of `poll_read` gives no more bytes than these and than
  -- there is room for, what is left of the chunk is less by the bytes that it gives, and it reports
  -- success only together with some bytes, so never the end of the message.
  pub poll_bdat-InChunk :
      (room limit : ℕ) (last : Bool) (pieces : List Piece) (w : World)
      → 0 < limit
      → InChunk limit room last (
          poll_bdat nom mail room
            (record { connection = w; pieces = pieces; inner = reading limit last }))
  unfolding poll_bdat poll_bdat_within
  poll_bdat-InChunk room limit last pieces w h =
      let n = length w.incoming in
      bdat_turn-InChunk (poll_bdat_within nom mail (suc (suc (n + n))) room) room limit last
        (record { connection = w; pieces = pieces; inner = reading limit last }) h

  -- When the client ends its message with `BDAT 0 LAST`: the reader gets the end of the message, and
  -- then both its acceptance and its rejection panic, since the stream is gone.
  pub accept_bdat_panics :
      (room : ℕ) (pieces : List Piece) (w : World)
      → (next_bdat nom mail w).0 ≡ returned (0, true)
      → (b : Bdat) × (poll_bdat nom mail room
            (record { connection = w; pieces = pieces; inner = reading 0 false })
          ≡ (ready, [], b))
        × ((accept_bdat b.inner b.connection).0 ≡ panicked)
        × ((reject_bdat b.inner b.connection).0 ≡ panicked)
  unfolding poll_bdat poll_bdat_within bdat_turn take_read on_taken on_next_bdat accept_bdat
      reject_bdat answer_bdat has_stream
  accept_bdat_panics room pieces w h = (
    record { connection = (next_bdat nom mail w).1; pieces = pieces; inner = completed },
    rw h refl,
    refl,
    refl,
  )
