-- ===== src/Smtp/Serve/Accepted.antt =====
-- What becomes of a message that is read to its end.
use brev.Base.{
  ℕ, ◌+◌, ◌≤◌, ◌<◌, ◌≡◌, refl, ap, ◌∙◌, Bool, true, false, some, List, [], ◌∷◌, ◌++◌, length, All,
  Bytes, codes, ◌==◌, if◌then◌else◌,
}
use brev.Base.Utf8.{is_utf8}
use brev.Io.{World, returned, wrote, flushed, perform, perform_on, answer}
use brev.Io.Settles.{Prompt}
use brev.Line.{write, flush, write_flush}
use brev.Smtp.Reading.{whole}
use brev.Smtp.Data.{ReadBuf, Arrival}
use brev.Smtp.Data.Truncated.{sent_then_closed, truncated_is_whole}
use brev.Smtp.Bdat.Body.{Bdat, accept_bdat}
use brev.Smtp.Bdat.Delivered.{Sends}
use brev.Smtp.Bdat.Whole.{read_all-IsWhole}
use brev.Smtp.Message.{bdat_body, answer_message, accept_message}
use brev.Smtp.Session.{Crates, Envelope, by_data, by_bdat, Session, next_message}
use brev.Smtp.Serve.{
  with_error, Arriving, Ran, stop, and_then, read_body, on_accepted, on_body, on_message,
  handle_connection,
}

-- The connection behind the answer to a message.
abbrev pub answered_ok : World → World
answered_ok w = record w { trace = (w.trace ++ wrote (codes "250 ok\r\n") ∷ []) ++ flushed ∷ [] }

module _ (k : Crates) (r : ReadBuf) where
  write_ok :
      (w : World)
      → w.answers ≡ []
      → write_flush (codes "250 ok\r\n") w ≡ (returned tt, answered_ok w)
  unfolding write_flush write flush perform perform_on answer
  write_ok w h = rw h refl

  -- A client that has sent DATA sends some text without a CR, so no end of the message, and closes its
  -- side of the connection. The server reads with enough buffers, each with room for six bytes; its
  -- writes succeed. Then it accepts that text as the message, answers `250 ok`, and goes on.
  pub truncated_is_accepted :
      (a : Arriving k r) (later : List (Arriving k r)) (s t : Session k) (e : Envelope k)
      (bs : Bytes) (rest : List Arrival)
      → next_message k s ≡ (returned (some (by_data e)), t)
      → t.connection.answers ≡ []
      → a.arrivals ≡ sent_then_closed r bs rest
      → All (λ buf. 6 ≤ r.remaining buf) a.buffers
      → length bs < length a.buffers
      → All (λ b. (b == b'\r') ≡ false) bs
      → is_utf8 bs ≡ true
      → handle_connection k r (a ∷ later) s
        ≡ and_then k r
            (e, bs)
            (handle_connection k r later (record t { connection = answered_ok t.connection }))
  unfolding handle_connection on_message read_body on_body accept_message answer_message
  truncated_is_accepted a later s t e bs rest n w h room enough plain text =
      rw
        (
          n,
          h,
          truncated_is_whole r a.buffers bs rest room enough plain,
          write_ok t.connection w,
          text,
        )
        refl

  -- What the server does with a text: it answers `250 ok` and goes on, if the text is UTF-8 and the
  -- answer is written; or the connection ends.
  abbrev pub takes : (Session k → Ran k r) → Envelope k × Bytes → Session k → World → Ran k r
  takes again m t w =
      let (o, v) = write_flush (codes "250 ok\r\n") w in
      if is_utf8 m.1
      then on_accepted k r again m t o v
      else stop k r with_error (record t { connection = w })

  on_body-takes :
      (again : Session k → Ran k r) (e : Envelope k) (t : Session k) (text : Bytes) (left : Bdat)
      → ((w : World) → accept_bdat left.inner w ≡ write_flush (codes "250 ok\r\n") w)
      → on_body k r again e t (whole text (bdat_body left.inner, left.connection))
        ≡ takes again (e, text) t left.connection
  unfolding on_body accept_message answer_message accept_bdat
  on_body-takes again e t text left h = rw (h left.connection) refl

  -- A client sends a message in chunks after BDAT commands and ends it with a last chunk that is not
  -- `BDAT 0 LAST`; every write is answered in time, and the server reads often enough, each time with
  -- some room in its buffer. `z` is the connection behind the last BDAT command. If the text of the
  -- chunks is UTF-8, the server writes `250 ok` on `z` and, if that is written, has received the text
  -- with its envelope, and goes on behind the answer; else the connection ends as the write does. If
  -- the text is not UTF-8, the connection ends with an error at `z`: the message is not received, and
  -- nothing is written in answer to it.
  pub chunks_are_accepted :
      (a : Arriving k r) (later : List (Arriving k r)) (s t : Session k) (e : Envelope k)
      (size stops : ℕ) (last : Bool) (text : Bytes) (z : World)
      → next_message k s ≡ (returned (some (by_bdat e size last)), t)
      → Prompt t.connection.answers
      → All (λ room. 0 < room) a.rooms
      → length text + stops < length a.rooms
      → Sends k.nom k.mail z t.connection a.pieces size last text stops
      → handle_connection k r (a ∷ later) s ≡ takes (handle_connection k r later) (e, text) t z
  unfolding handle_connection on_message read_body
  chunks_are_accepted a later s t e size stops last text z n p rooms enough sends =
      let h =
        read_all-IsWhole k.nom k.mail a.rooms z t.connection a.pieces size last text stops rooms p
          enough sends in
      let body = on_body-takes (handle_connection k r later) e t text h.left h.acceptable in
      rw (n, h.reads) (body ∙ ap (takes (handle_connection k r later) (e, text) t) h.behind)
