-- ===== src/Tests/Bdat.antt =====
-- crates/smtp/src/message/bdat.rs at concrete inputs.
use brev.Base.{List, ℕ, ◌≡◌, refl, true, false, [], ◌∷◌, codes, arith, trim_line}
use brev.Base.Decimal.{parse_uint}
use brev.Io.{World, returned, panicked}
use brev.Smtp.Command.{try_from, parse_verb, parse_bdat}
use brev.Smtp.Bdat.{next_bdat}
use brev.Smtp.Bdat.Body.{
  reading, Piece, piece, no_piece, Bdat, ready, poll_bdat, accept_bdat, reject_bdat,
}
use brev.Smtp.Bdat.Delivered.{Sends, finished, bytes, pauses, next, at_chunk}
use brev.Smtp.Bdat.Whole.{read_all, IsWhole, read_all-IsWhole}
use brev.Smtp.Bdat.Chunks.{InChunk, poll_bdat-InChunk, accept_bdat_panics}
use brev.Tests.Samples.{says, nom, mail}

poll_bdat-InChunk_example : InChunk 4 2 false (
    poll_bdat nom mail 2 (record {
      connection = says [];
      pieces = piece (codes "Edel") ∷ [];
      inner = reading 4 false;
    }))
poll_bdat-InChunk_example =
    poll_bdat-InChunk nom mail 2 4 false (piece (codes "Edel") ∷ []) (says []) (omega arith)

zero_last : (next_bdat nom mail (says (codes "BDAT 0 LAST" ∷ []))).0 ≡ returned (0, true)
unfolding next_bdat try_from parse_verb parse_bdat parse_uint trim_line
zero_last = refl

accept_bdat_panics_example :
    (b : Bdat) × (poll_bdat nom mail 9 (record {
      connection = says (codes "BDAT 0 LAST" ∷ []);
      pieces = [];
      inner = reading 0 false;
    })
      ≡ (ready, [], b))
    × ((accept_bdat b.inner b.connection).0 ≡ panicked)
    × ((reject_bdat b.inner b.connection).0 ≡ panicked)
accept_bdat_panics_example =
    accept_bdat_panics nom mail 9 [] (says (codes "BDAT 0 LAST" ∷ [])) zero_last

-- The client of the test in the source, which pauses in the first chunk.
abbrev edelwe : World
edelwe = says (codes "BDAT 2 LAST" ∷ [])

abbrev arriving : List Piece
arriving = piece (codes "Ed") ∷ no_piece ∷ piece (codes "el") ∷ piece (codes "we") ∷ []

next_chunk : next_bdat nom mail edelwe ≡ (returned (2, true), (next_bdat nom mail edelwe).1)
unfolding next_bdat try_from parse_verb parse_bdat parse_uint trim_line
next_chunk = refl

edelwe-Sends :
    Sends nom mail (next_bdat nom mail edelwe).1 edelwe arriving 4 false (codes "Edelwe") 1
edelwe-Sends = bytes b'E' (codes "d") (omega arith) (
    pauses (omega arith) (
      bytes b'e' (codes "l") (omega arith)
        (next next_chunk (λ h. cc) (bytes b'w' (codes "e") (omega arith) finished))))

abbrev rooms : List ℕ
rooms = 1 ∷ 9 ∷ 9 ∷ 1 ∷ 9 ∷ 9 ∷ 9 ∷ 9 ∷ []

read_all-IsWhole_example :
    IsWhole nom mail
      (next_bdat nom mail edelwe).1
      (codes "Edelwe")
      (read_all nom mail rooms (at_chunk nom mail edelwe arriving 4 false))
read_all-IsWhole_example =
    read_all-IsWhole nom mail rooms (next_bdat nom mail edelwe).1 edelwe arriving 4 false
      (codes "Edelwe") 1 (omega arith) tt (omega arith) edelwe-Sends
