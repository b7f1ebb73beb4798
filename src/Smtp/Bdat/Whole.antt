-- ===== src/Smtp/Bdat/Whole.antt =====
-- A BDAT message is read whole, and can then be accepted.
use brev.Base.{
  ℕ, suc, ◌+◌, ◌≤◌, ◌<◌, ◌≡◌, refl, Bool, List, [], ◌∷◌, ◌++◌, arith, length, All, Bytes, codes,
}
use brev.Io.{World}
use brev.Io.Settles.{Prompt}
use brev.Line.{write_flush}
use brev.Nom.{Nom}
use brev.Smtp.Command.{EmailAddress}
use brev.Smtp.Reading.{ReadEnd, whole, errored, crashed, unfinished, prepend}
use brev.Smtp.Bdat.Body.{
  Piece, Bdat, ready, wait, broken, panics, Polled, poll_bdat, has_stream, answer_bdat, accept_bdat,
  reject_bdat,
}
use brev.Smtp.Bdat.Delivered.{Sends, at_chunk, Gives, ended, gave, paused, poll-Gives}

module _ (nom : Nom) (mail : EmailAddress) where
  abbrev pub on_polled : (Bdat → ReadEnd Bdat) → Polled → ReadEnd Bdat
  on_polled again (ready, [], b) = whole [] b
  on_polled again (ready, c ∷ cs, b) = prepend (c ∷ cs) (again b)
  on_polled again (wait, bs, b) = again b
  on_polled again (broken e, bs, b) = errored b
  on_polled again (panics, bs, b) = crashed b

  -- A reader polls until the end, each time with some room in its buffer.
  unfoldable pub read_all : List ℕ → Bdat → ReadEnd Bdat
  unfolding poll_bdat
  read_all [] b = unfinished b
  read_all (room ∷ rooms) b = on_polled (read_all rooms) (poll_bdat nom mail room b)

  -- The reader has the text, the connection is `z`, and the message can be answered.
  pub record IsWhole (z : World) (text : Bytes) (r : ReadEnd Bdat) : Type 0 where
    pub left : Bdat
    pub reads : r ≡ whole text left
    pub behind : left.connection ≡ z
    pub acceptable : (w : World) → accept_bdat left.inner w ≡ write_flush (codes "250 ok\r\n") w
    pub rejectable : (w : World) → reject_bdat left.inner w ≡ write_flush (codes "554 nope\r\n") w

  IsWhole-prepend :
      (z : World) (bs text : Bytes) (r : ReadEnd Bdat)
      → IsWhole z text r
      → IsWhole z (bs ++ text) (prepend bs r)
  IsWhole-prepend z bs text r h = record {
    left = h.left;
    reads = rw h.reads refl;
    behind = h.behind;
    acceptable = h.acceptable;
    rejectable = h.rejectable;
  }

  -- The same of every message for which the calls are enough.
  abbrev ReadsWhole : World → List ℕ → Type 0
  ReadsWhole z rooms =
      (w : World) (pieces : List Piece) (limit : ℕ) (last : Bool) (text : Bytes) (stops : ℕ)
      → Prompt w.answers
      → length text + stops < length rooms
      → Sends nom mail z w pieces limit last text stops
      → IsWhole z text (read_all rooms (at_chunk nom mail w pieces limit last))

  length-append : (a b : Bytes) → length (a ++ b) ≡ length a + length b
  length-append [] b = omega arith
  length-append (x ∷ a) b = omega (arith, length-append a b)

  on_polled-IsWhole :
      (z : World) (rooms : List ℕ) {text : Bytes} {stops : ℕ} {p : Polled}
      → ReadsWhole z rooms
      → length text + stops ≤ length rooms
      → Gives nom mail z text stops p
      → IsWhole z text (on_polled (read_all rooms) p)
  unfolding accept_bdat reject_bdat answer_bdat has_stream
  on_polled-IsWhole z rooms again h ended = record {
    left = _;
    reads = refl;
    behind = refl;
    acceptable = λ w. refl;
    rejectable = λ w. refl;
  }
  on_polled-IsWhole z rooms again h (gave {w} {rest} {limit} {last} {text} {stops} b bs p s) =
      IsWhole-prepend z (b ∷ bs) text _
        (again w rest limit last text stops p (omega (arith, h, length-append (b ∷ bs) text)) s)
  on_polled-IsWhole z rooms again h (paused {w} {rest} {limit} {last} {text} {stops} p s) =
      again w rest limit last text stops p (omega (arith, h)) s

  each_message_whole :
      (z : World) (rooms : List ℕ) → All (λ room. 0 < room) rooms → ReadsWhole z rooms
  unfolding read_all poll_bdat
  each_message_whole z [] h w pieces limit last text stops p f s = absurd (omega arith)
  each_message_whole z (room ∷ rooms) h w pieces limit last text stops p f s =
      let n = length w.incoming in
      on_polled-IsWhole z rooms (each_message_whole z rooms (h.1)) (omega (arith, f))
        (poll-Gives nom mail (suc (suc (suc (n + n)))) room (h.0) p (omega arith) s)

  -- A client sends a message in chunks, of any sizes, each after its BDAT command, and ends it with a
  -- last chunk that is not `BDAT 0 LAST`; every write is answered in time. A reader who polls often
  -- enough, each time with some room in its buffer, gets the bytes of the chunks one after the other,
  -- whatever the sizes of its buffers and of what arrives, and then the end; the connection is then
  -- the one behind the last BDAT command, and the message can be accepted and rejected. Often enough is more often than the message has bytes and the client pauses.
  pub read_all-IsWhole :
      (rooms : List ℕ) (z w : World) (pieces : List Piece) (limit : ℕ) (last : Bool) (text : Bytes)
      (stops : ℕ)
      → All (λ room. 0 < room) rooms
      → Prompt w.answers
      → length text + stops < length rooms
      → Sends nom mail z w pieces limit last text stops
      → IsWhole z text (read_all rooms (at_chunk nom mail w pieces limit last))
  read_all-IsWhole rooms z w pieces limit last text stops h p f s =
      each_message_whole z rooms h w pieces limit last text stops p f s
