-- ===== src/Smtp/Data/Message.antt =====
-- From the client's lines to what the server's caller reads, end to end.
use brev.Base.{◌≤◌, ◌≡◌, ◌∙◌, ap, ◌≢◌, some, List, ◌++◌, All, Bytes, codes}
use brev.Smtp.Data.{ReadBuf, State, start, eof, Arrival}
use brev.Smtp.Data.Decode.{decode, decode_from}
use brev.Smtp.Data.Polled.{bytes}
use brev.Smtp.Data.Polls.{Polls, Polls-decode, Polls-decode_complete}
use brev.Smtp.Data.RoundTrip.{
  IsLine, NoDot, Plain, send, text, decode-send, received_rest, decode-received,
}

module _ (r : ReadBuf) (fresh : r.Buf) (room : 6 ≤ r.remaining fresh)
    (arrivals : List Arrival) where
  -- The caller can read up to the end of the message: `message` is what it gets, and `tail` what it
  -- leaves on the stream.
  pub record Reads (message tail : Bytes) : Type 0 where
    pub rest : List Arrival
    pub polls : Polls r eof rest start arrivals message
    pub unread : bytes rest ≡ tail

  Reads-decode :
      (message tail : Bytes) → decode (bytes arrivals) ≡ (message, some tail) → Reads message tail
  Reads-decode message tail h =
      let (rest, polls, unread) = Polls-decode r fresh room arrivals message tail h in
      record { rest = rest; polls = polls; unread = unread }

  -- The client sends lines without CR, doubles a dot at the start of a line, and ends the message;
  -- `tail` is what it sends behind that. Where the first line does not begin with a dot, and the
  -- others do so only where the dot stands alone, the caller reads exactly the lines.
  pub Reads-send :
      (l : Bytes) (ls : List Bytes) (tail : Bytes)
      → IsLine l
      → NoDot l
      → All Plain ls
      → bytes arrivals ≡ send l ls tail
      → Reads (text l ls) tail
  Reads-send l ls tail h d hs e = Reads-decode _ _ (ap decode e ∙ decode-send l ls tail h d hs)

  -- The client sends lines without CR, doubles a dot at the start of a line, and ends the message;
  -- the first line does not begin with a dot. Each other line that begins with a dot and goes on
  -- reaches the caller with the dot doubled, and all else as it is. The caller can bring buffers with
  -- room for six bytes.
  pub Reads-doubled_dot :
      (l : Bytes) (ls : List Bytes) (tail : Bytes)
      → IsLine l
      → NoDot l
      → All IsLine ls
      → bytes arrivals ≡ send l ls tail
      → Reads (l ++ received_rest ls) tail
  Reads-doubled_dot l ls tail h d hs e =
      Reads-decode _ _ (ap decode e ∙ decode-received l ls tail h d hs)

module _ (r : ReadBuf) where
  -- An empty message, which the client ends right behind DATA: no number of calls, each with a buffer
  -- with room for six bytes, comes to its end.
  pub empty_message_unended :
      {s' : State} {rest arrivals : List Arrival} {out : Bytes}
      → bytes arrivals ≡ codes ".\r\n"
      → Polls r s' rest start arrivals out
      → s' ≢ eof
  unfolding decode_from
  empty_message_unended h polls e = cc (Polls-decode_complete r (rw e at polls), ap decode h)
