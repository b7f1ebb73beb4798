-- ===== src/Smtp/Message.antt =====
-- crates/smtp/src/message.rs: what becomes of a message that a session has handed over.
use brev.Base.{Bytes, codes}
use brev.Io.{Io}
use brev.Line.{write_flush}
use brev.Smtp.Session.{Crates, Incoming, by_data, by_bdat}
use brev.Smtp.Bdat.Body.{Inner, reading, answer_bdat}

-- `Inner`, without the connection: a DATA message keeps it, whatever its state.
pub data MessageBody : Type 0 where
  data_body : MessageBody
  bdat_body : Inner → MessageBody

-- `Incoming::data` and `Incoming::bdat`, with `Bdat::new`.
module _ (k : Crates) where
  unfoldable pub body_of : Incoming k → MessageBody
  body_of (by_data envelope) = data_body
  body_of (by_bdat envelope size last) = bdat_body (reading size last)

-- `write_flush(self.take_stream().unwrap(), ...)`.
unfoldable pub answer_message : Bytes → MessageBody → Io (Unit {0})
unfolding answer_bdat write_flush
answer_message text data_body = write_flush text
answer_message text (bdat_body inner) = answer_bdat text inner

unfoldable pub accept_message : MessageBody → Io (Unit {0})
unfolding answer_message
accept_message = answer_message (codes "250 ok\r\n")

unfoldable pub reject_message : MessageBody → Io (Unit {0})
unfolding answer_message
reject_message = answer_message (codes "554 nope\r\n")
