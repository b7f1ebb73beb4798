-- ===== src/Tests/Delivery.antt =====
-- src/main.rs, `handle_connection`, at concrete inputs.
use brev.Base.{◌≡◌, refl, true, false, some, [], ◌∷◌, codes, arith, trim_line}
use brev.Base.Utf8.{is_utf8}
use brev.Base.Decimal.{parse_uint}
use brev.Io.{World, returned}
use brev.Smtp.Command.{try_from, parse_verb, parse_bdat, mailbox}
use brev.Smtp.Data.Truncated.{sent_then_closed}
use brev.Smtp.Bdat.{next_bdat}
use brev.Smtp.Bdat.Body.{piece}
use brev.Smtp.Bdat.Delivered.{Sends, finished, bytes, next}
use brev.Smtp.Session.{Envelope, by_data, by_bdat, Session, next_message}
use brev.Smtp.Session.Keeps.{IsValid}
use brev.Smtp.Serve.{Arriving, and_then, handle_connection}
use brev.Smtp.Serve.Received.{IsSound, handle_connection-IsSound}
use brev.Smtp.Serve.Accepted.{answered_ok, truncated_is_accepted, takes, chunks_are_accepted}
use brev.Tests.Samples.{Buffer, read_buf, nom, mail, crates, begins, says}

-- A client that breaks off the body of its message.
abbrev sends_data : Session crates
sends_data =
    begins
      (says (codes "HELO me" ∷ codes "MAIL FROM:<a@b>" ∷ codes "RCPT TO:<c@d>" ∷ codes "DATA" ∷ []))

data_handed :
    (e : Envelope crates) × (t : Session crates) × (next_message crates sends_data
      ≡ (returned (some (by_data e)), t))
unfolding next_message try_from trim_line parse_verb mailbox
data_handed = (_, _, refl)

abbrev buffer : Buffer
buffer = record { content = []; room = 8 }

abbrev breaks_off : Arriving crates read_buf
breaks_off = record {
  buffers = buffer ∷ buffer ∷ buffer ∷ [];
  arrivals = sent_then_closed read_buf (codes "Hi") [];
  rooms = [];
  pieces = [];
}

sends_data-IsValid : IsValid crates sends_data
sends_data-IsValid = record { helo_first = λ h. refl; anonymous = refl }

handle_connection-IsSound_example :
    IsSound crates read_buf (handle_connection crates read_buf (breaks_off ∷ []) sends_data)
handle_connection-IsSound_example =
    handle_connection-IsSound crates read_buf (breaks_off ∷ []) sends_data sends_data-IsValid

truncated_is_accepted_example :
    handle_connection crates read_buf (breaks_off ∷ []) sends_data
    ≡ and_then crates read_buf
        (data_handed.0, codes "Hi")
        (handle_connection crates read_buf []
          (record data_handed.1 { connection = answered_ok data_handed.1.connection }))
unfolding is_utf8 next_message data_handed
truncated_is_accepted_example =
    truncated_is_accepted crates read_buf breaks_off [] sends_data data_handed.1 data_handed.0
      (codes "Hi") [] (data_handed.2) refl refl (omega arith) (omega arith) (refl, (refl, tt)) refl

-- A client that sends two chunks.
abbrev sends_chunks : Session crates
sends_chunks = begins (
    says (
      codes "HELO me"
      ∷ codes "MAIL FROM:<a@b>"
      ∷ codes "RCPT TO:<c@d>"
      ∷ codes "BDAT 2"
      ∷ codes "BDAT 1 LAST"
      ∷ []))

chunk_handed :
    (e : Envelope crates) × (t : Session crates) × (next_message crates sends_chunks
      ≡ (returned (some (by_bdat e 2 false)), t))
unfolding next_message try_from trim_line parse_verb parse_bdat parse_uint mailbox
chunk_handed = (_, _, refl)

abbrev two_chunks : Arriving crates read_buf
two_chunks = record {
  buffers = [];
  arrivals = [];
  rooms = 1 ∷ 1 ∷ 9 ∷ 9 ∷ [];
  pieces = piece (codes "Hi") ∷ piece (codes "!") ∷ [];
}

-- The connection behind the command of the last chunk.
abbrev behind : World
behind = (next_bdat nom mail chunk_handed.1.connection).1

last_chunk :
    next_bdat nom mail chunk_handed.1.connection
    ≡ (returned (1, true), (next_bdat nom mail chunk_handed.1.connection).1)
unfolding chunk_handed next_message next_bdat try_from trim_line parse_verb parse_bdat parse_uint
    mailbox
last_chunk = refl

chunks-Sends :
    Sends nom mail behind chunk_handed.1.connection two_chunks.pieces 2 false (codes "Hi!") 0
chunks-Sends =
    bytes b'H' (codes "i") (omega arith)
      (next last_chunk (λ h. cc) (bytes b'!' [] (omega arith) finished))

chunks_are_accepted_example :
    handle_connection crates read_buf (two_chunks ∷ []) sends_chunks
    ≡ takes crates read_buf
        (handle_connection crates read_buf [])
        (chunk_handed.0, codes "Hi!")
        chunk_handed.1
        behind
unfolding chunk_handed next_message
chunks_are_accepted_example =
    chunks_are_accepted crates read_buf two_chunks [] sends_chunks chunk_handed.1 chunk_handed.0 2 0
      false (codes "Hi!") behind (chunk_handed.2) tt (omega arith) (omega arith) chunks-Sends
