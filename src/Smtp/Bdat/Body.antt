-- ===== src/Smtp/Bdat/Body.antt =====
-- crates/smtp/src/message/bdat.rs, `Bdat::poll_read`: a message that arrives in chunks; and from
-- crates/smtp/src/message.rs its acceptance and rejection.
use brev.Base.{
  ℕ, zero, suc, ◌+◌, ◌-◌, Bool, true, false, ◌&&◌, List, [], ◌∷◌, length, take, drop, Bytes, codes,
  leb, ◌==◌, if◌then◌else◌,
}
use brev.Io.{World, Io, IoError, unexpected_eof, Outcome, returned, failed, stalled, panicked}
use brev.Line.{write_flush}
use brev.Nom.{Nom}
use brev.Smtp.Command.{EmailAddress}
use brev.Smtp.Bdat.{next_bdat}

-- `Inner`: a chunk with the bytes that are left of it; the future of `next_bdat`, before it is first
-- polled, while it waits for ever, and after it has completed; none.
pub data Inner : Type 0 where
  reading : ℕ → Bool → Inner
  writing waiting completed gone : Inner

-- The outcome of one read of the stream inside; none at its end.
pub data Piece : Type 0 where
  piece : Bytes → Piece
  broken_piece : IoError → Piece
  no_piece : Piece

pub record Bdat : Type 0 where
  pub connection : World
  pub pieces : List Piece
  pub inner : Inner

-- `Poll<io::Result<()>>`, and a panic.
pub data BdatPoll : Type 0 where
  ready wait panics : BdatPoll
  broken : IoError → BdatPoll

-- What a call gives: its result, the bytes that it puts into the buffer, and the object.
abbrev pub Polled : Type 0
Polled = BdatPoll × Bytes × Bdat

abbrev pub min : ℕ → ℕ → ℕ
min a b = if leb a b then a else b

-- `Take::poll_read` on a limit that is not 0, on the reads that are left: never more than the limit
-- or the room in the buffer.
pub data Taken : Type 0 where
  got : Bytes → List Piece → Taken
  error : IoError → List Piece → Taken
  pending : List Piece → Taken

-- What does not fit stays in the stream.
abbrev pub leftover : Bytes → List Piece → List Piece
leftover [] rest = rest
leftover (b ∷ bs) rest = piece (b ∷ bs) ∷ rest

unfoldable pub take_from : ℕ → List Piece → Taken
take_from most [] = pending []
take_from most (piece bs ∷ rest) = got (take most bs) (leftover (drop most bs) rest)
take_from most (broken_piece e ∷ rest) = error e rest
take_from most (no_piece ∷ rest) = pending rest

unfoldable pub take_read : ℕ → ℕ → List Piece → Taken
unfolding take_from
take_read limit room pieces =
    if limit == 0 then got [] pieces else take_from (min limit room) pieces

-- `take_stream`: whether there is a stream.
unfoldable pub has_stream : Inner → Bool
has_stream (reading limit last) = true
has_stream _ = false

-- The `Read` arm, behind the read.
unfoldable pub on_taken : (Bdat → Polled) → ℕ → Bool → Bdat → Taken → Polled
on_taken again limit last b (got [] pieces) =
    if limit == 0
    then (if last
        then (ready, [], record b { pieces = pieces })
        else again (record b { pieces = pieces; inner = writing }))
    else (broken unexpected_eof, [], record b { pieces = pieces })
on_taken again limit last b (got (c ∷ cs) pieces) =
    (ready, c ∷ cs, record b { pieces = pieces; inner = reading (limit - length (c ∷ cs)) last })
on_taken again limit last b (error e pieces) = (broken e, [], record b { pieces = pieces })
on_taken again limit last b (pending pieces) = (wait, [], record b { pieces = pieces })

-- The `Write` arm, on the outcome of `next_bdat`; a future that waits for ever is pending.
unfoldable pub on_next_bdat : (Bdat → Polled) → Bdat → Outcome (ℕ × Bool) → Polled
on_next_bdat again b (returned (size, last)) =
    if size == 0 && last
    then (ready, [], record b { inner = completed })
    else again (record b { inner = reading size last })
on_next_bdat again b (failed e) = (broken e, [], record b { inner = completed })
on_next_bdat again b stalled = (wait, [], record b { inner = waiting })
on_next_bdat again b panicked = (panics, [], b)

module _ (nom : Nom) (mail : EmailAddress) where
  -- A turn of the loop; a future that has completed panics when it is polled again.
  unfoldable pub bdat_turn : (Bdat → Polled) → ℕ → Bdat → Inner → Polled
  unfolding on_taken take_read on_next_bdat next_bdat
  bdat_turn again room b (reading limit last) =
      on_taken again limit last b (take_read limit room b.pieces)
  bdat_turn again room b writing =
      let (o, w) = next_bdat nom mail b.connection in
      on_next_bdat again (record b { connection = w }) o
  bdat_turn again room b waiting = (wait, [], b)
  bdat_turn again room b completed = (panics, [], b)
  bdat_turn again room b gone = (panics, [], b)

  -- Two turns take a command at least, but for the last two.
  unfoldable pub poll_bdat_within : ℕ → ℕ → Bdat → Polled
  unfolding bdat_turn
  poll_bdat_within zero room b = (wait, [], b)
  poll_bdat_within (suc n) room b =
      let again = poll_bdat_within n room in bdat_turn again room b b.inner

  unfoldable pub poll_bdat : ℕ → Bdat → Polled
  unfolding poll_bdat_within
  poll_bdat room b =
      let n = length b.connection.incoming in poll_bdat_within (suc (suc (suc (n + n)))) room b

-- `Incoming::accept` and `reject`: `take_stream().unwrap()` on a BDAT message.
unfoldable pub answer_bdat : Bytes → Inner → Io (Unit {0})
unfolding has_stream write_flush
answer_bdat text inner w = if has_stream inner then write_flush text w else (panicked, w)

unfoldable pub accept_bdat : Inner → Io (Unit {0})
unfolding answer_bdat
accept_bdat = answer_bdat (codes "250 ok\r\n")

unfoldable pub reject_bdat : Inner → Io (Unit {0})
unfolding answer_bdat
reject_bdat = answer_bdat (codes "554 nope\r\n")
