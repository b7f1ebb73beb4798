-- ===== src/Smtp/Serve.antt =====
-- src/main.rs, `handle_connection`: each message of a session is read to its end and accepted.
pub mod Received
pub mod Accepted
use brev.Base.{ℕ, Bool, true, false, Option, none, some, List, [], ◌∷◌, Bytes, if◌then◌else◌}
use brev.Base.Utf8.{is_utf8}
use brev.Io.{World, Outcome, returned, failed, stalled, panicked}
use brev.Smtp.Reading.{ReadEnd, whole, errored, crashed, unfinished}
use brev.Smtp.Data.{ReadBuf, State, start, Arrival}
use brev.Smtp.Data.Truncated.{read_data}
use brev.Smtp.Bdat.Body.{Piece, Bdat}
use brev.Smtp.Bdat.Delivered.{at_chunk}
use brev.Smtp.Bdat.Whole.{read_all}
use brev.Smtp.Message.{MessageBody, data_body, bdat_body, accept_message}
use brev.Smtp.Session.{Crates, Envelope, Incoming, by_data, by_bdat, Session, next_message}
use brev.Smtp.Session.Keeps.{envelope_of}

-- How `handle_connection` ends: the client has gone; with an error, which only goes to the log; in a
-- panic; or it waits.
pub data End : Type 0 where
  closed with_error in_panic waiting : End

module _ (k : Crates) (r : ReadBuf) where
  open k use {nom, mail}

  -- While a message is read, its body arrives beside the lines of the `World`: by DATA byte by byte,
  -- by BDAT in pieces. The reader has buffers, and room in them.
  pub record Arriving : Type 0 where
    pub buffers : List r.Buf
    pub arrivals : List Arrival
    pub rooms : List ℕ
    pub pieces : List Piece

  -- The messages whose text was received and accepted, and how the connection ends.
  pub record Ran : Type 0 where
    pub received : List (Envelope k × Bytes)
    pub end : End
    pub session : Session k

  abbrev pub stop : End → Session k → Ran
  stop end s = record { received = []; end = end; session = s }

  abbrev pub and_then : Envelope k × Bytes → Ran → Ran
  and_then m ran = record ran { received = m ∷ ran.received }

  abbrev pub end_of : {A : Type 0} → Outcome A → End
  end_of (returned a) = closed
  end_of (failed e) = with_error
  end_of stalled = waiting
  end_of panicked = in_panic

  abbrev pub data_read : World → ReadEnd State → ReadEnd (MessageBody × World)
  data_read w (whole text s) = whole text (data_body, w)
  data_read w (errored s) = errored (data_body, w)
  data_read w (crashed s) = crashed (data_body, w)
  data_read w (unfinished s) = unfinished (data_body, w)

  abbrev pub bdat_read : ReadEnd Bdat → ReadEnd (MessageBody × World)
  bdat_read (whole text b) = whole text (bdat_body b.inner, b.connection)
  bdat_read (errored b) = errored (bdat_body b.inner, b.connection)
  bdat_read (crashed b) = crashed (bdat_body b.inner, b.connection)
  bdat_read (unfinished b) = unfinished (bdat_body b.inner, b.connection)

  -- `Incoming::poll_read`, to the end.
  unfoldable pub read_body : Arriving → Incoming k → World → ReadEnd (MessageBody × World)
  unfolding read_data read_all
  read_body a (by_data e) w = data_read w (read_data r a.buffers start a.arrivals)
  read_body a (by_bdat e size last) w =
      bdat_read (read_all nom mail a.rooms (at_chunk nom mail w a.pieces size last))

  abbrev pub on_accepted :
      (Session k → Ran) → Envelope k × Bytes → Session k → Outcome (Unit {0}) → World → Ran
  on_accepted again m s (returned u) w = and_then m (again (record s { connection = w }))
  on_accepted again m s o w = stop (end_of o) (record s { connection = w })

  -- `read_to_string` is an error where the bytes are no UTF-8.
  unfoldable pub on_body :
      (Session k → Ran) → Envelope k → Session k → ReadEnd (MessageBody × World) → Ran
  unfolding accept_message
  on_body again e s (whole text (body, w)) =
      let (o, v) = accept_message body w in
      if is_utf8 text
      then on_accepted again (e, text) s o v
      else stop with_error (record s { connection = w })
  on_body again e s (errored (body, w)) = stop with_error (record s { connection = w })
  on_body again e s (crashed (body, w)) = stop in_panic (record s { connection = w })
  on_body again e s (unfinished (body, w)) = stop waiting (record s { connection = w })

  unfoldable pub on_message :
      (Session k → Ran) → Arriving → Outcome (Option (Incoming k)) → Session k → Ran
  unfolding read_body on_body
  on_message again a (returned none) s = stop closed s
  on_message again a (returned (some m)) s =
      on_body again (envelope_of k m) s (read_body a m s.connection)
  on_message again a o s = stop (end_of o) s

  -- The loop, structural on what arrives for each message; without more of it, it waits.
  unfoldable pub handle_connection : List Arriving → Session k → Ran
  unfolding on_message next_message
  handle_connection [] s = stop waiting s
  handle_connection (a ∷ rest) s =
      let (o, t) = next_message k s in on_message (handle_connection rest) a o t
