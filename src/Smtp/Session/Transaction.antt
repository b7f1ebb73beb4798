-- ===== src/Smtp/Session/Transaction.antt =====
-- A whole mail transaction, from MAIL to DATA, over a connection whose writes succeed.
use brev.Base.{
  ℕ, zero, suc, ◌<◌, ◌≡◌, refl, ◌≢◌, ◌∙◌, Bool, true, false, Option, none, some, List, [], ◌∷◌,
  ◌++◌, arith, length, length-append, Bytes, codes, Bool-cases, inl, inr, trim_line,
}
use brev.Io.{Incoming, chunk, Sent, wrote, flushed, returned, Stream, ◌>>=◌, perform, read_until}
use brev.Line.{read_line, write_flush}
use brev.Smtp.Command.{Command, ok, try_from}
use brev.Smtp.Reader.{read_cmd, read_cmd_inner}
use brev.Smtp.Session.{
  Crates, Context, Envelope, by_data, Session, on_connection, say, insert, contains, taken,
  taken_with, take_envelope, handle_mail, handle_rcpt, on_data, handle, after_handle, on_command,
  loop_within, next_message,
}

-- The trace with one more reply.
abbrev pub replied : List Sent → Bytes → List Sent
replied trace text = (trace ++ wrote text ∷ []) ++ flushed ∷ []

module _ (k : Crates) where
  abbrev pub Address : Type 0
  Address = k.mail.Address

  -- The line that is read is the command.
  pub data Says (c : Command k.nom k.mail) : Incoming → Type 0 where
    spoken :
        {b : ℕ} {bs : Bytes} {more : Bool}
        → try_from k.nom k.mail (trim_line (b ∷ bs)) ≡ ok c
        → Says c (chunk (b ∷ bs) more)

  -- RCPT for each recipient.
  abbrev pub SaysRecipients : List Address → List Incoming → Type 0
  SaysRecipients [] [] = Unit
  SaysRecipients (a ∷ rest) (i ∷ is) = Says (Command.rcpt_to a) i × SaysRecipients rest is
  SaysRecipients _ _ = ⊥

  abbrev pub insert_all : List Address → List Address → List Address
  insert_all to [] = to
  insert_all to (a ∷ rest) = insert_all (insert k a to) rest

  -- One reply to each recipient.
  abbrev pub replied_all : List Sent → List Address → List Sent
  replied_all trace [] = trace
  replied_all trace (a ∷ rest) = replied_all (replied trace (codes "250 ok\r\n")) rest

  insert-nonempty : (a : Address) (to : List Address) → insert k a to ≢ []
  unfolding insert contains
  insert-nonempty a [] e = cc
  insert-nonempty a (x ∷ to) e = elim (Bool-cases (contains k (x ∷ to) a)) [
    | inl c ↦ cc (rw c at e)
    | inr c ↦ cc (rw c at e)
  ]

  taken_with-some :
      (e : Envelope k) (to : List Address) (s : Session k)
      → to ≢ []
      → taken_with k e to s ≡ (returned (some e), s)
  unfolding taken_with
  taken_with-some e [] s h = absurd (h refl)
  taken_with-some e (a ∷ to) s h = refl

  -- A greeted session whose writes will all succeed.
  module _ (stream : Stream) (config : Context) (domain : Bytes) where
    abbrev pub state : List Incoming → Bool → List Sent → Option (Envelope k) → Session k
    state incoming more trace envelope = record {
      connection = record {
        incoming = incoming;
        buffered = more;
        answers = [];
        trace = trace;
        stream = stream;
      };
      envelope = envelope;
      helo_domain = some domain;
      identity = none;
      greeted = true;
      config = config;
    }

    abbrev pub buffered_behind : Incoming → Bool
    buffered_behind (chunk bs more) = more
    buffered_behind _ = false

    loop-Says :
        (fuel : ℕ) (c : Command k.nom k.mail) (i : Incoming) (rest : List Incoming) (more : Bool)
        (trace : List Sent) (e : Option (Envelope k))
        → Says c i
        → loop_within k (suc fuel) (state (i ∷ rest) more trace e)
          ≡ (handle k c >>= after_handle k (loop_within k fuel))
              (state rest (buffered_behind i) trace e)
    unfolding loop_within on_connection on_command read_cmd read_cmd_inner read_line read_until
    loop-Says fuel c _ rest more trace e (spoken parsed) = rw parsed refl

    handle-data :
        (e : Envelope k) (incoming : List Incoming) (more : Bool) (trace : List Sent)
        → e.recipients ≢ []
        → handle k Command.data_ (state incoming more trace (some e)) ≡ (
          returned (some (by_data e)),
          state incoming more (replied trace (codes "354 go ahead\r\n")) none,
        )
    unfolding handle take_envelope taken on_data say on_connection write_flush perform
    handle-data e incoming more trace h =
        rw (taken_with-some e e.recipients (state incoming more trace none) h) refl

    -- From RCPT on, with some recipients taken already.
    loop-SaysRecipients :
        (fuel : ℕ) (from : Address) (to rest : List Address) (is : List Incoming) (d : Incoming)
        (tail : List Incoming) (more : Bool) (trace : List Sent)
        → SaysRecipients rest is
        → Says Command.data_ d
        → length is < fuel
        → insert_all to rest ≢ []
        → loop_within k fuel
            (state (is ++ d ∷ tail) more trace (some (record { from = from; recipients = to })))
          ≡ (
            returned (some (by_data (record { from = from; recipients = insert_all to rest }))),
            state tail
                (buffered_behind d)
                (replied (replied_all trace rest) (codes "354 go ahead\r\n"))
                none,
          )
    unfolding handle handle_rcpt say on_connection write_flush perform after_handle
    loop-SaysRecipients zero from to rest is d tail more trace h g l n = absurd (omega arith)
    loop-SaysRecipients (suc fuel) from to [] [] d tail more trace h g l n =
        loop-Says fuel Command.data_ d tail more trace _ g
        ∙ rw
            (handle-data (record { from = from; recipients = to }) tail (buffered_behind d) trace n)
            refl
    loop-SaysRecipients (suc fuel) from to (a ∷ rest) (i ∷ is) d tail more trace h g l n =
        loop-Says fuel (Command.rcpt_to a) i (is ++ d ∷ tail) more trace _ (h.0)
        ∙ loop-SaysRecipients fuel from (insert k a to) rest is d tail (buffered_behind i)
            (replied trace (codes "250 ok\r\n")) (h.1) g (omega arith) n
    loop-SaysRecipients (suc fuel) from to [] (i ∷ is) d tail more trace h g l n = absurd h
    loop-SaysRecipients (suc fuel) from to (a ∷ rest) [] d tail more trace h g l n = absurd h

    insert_all-nonempty : (rest to : List Address) → to ≢ [] → insert_all to rest ≢ []
    insert_all-nonempty [] to h = h
    insert_all-nonempty (a ∷ rest) to h =
        insert_all-nonempty rest (insert k a to) (insert-nonempty a to)

    -- A greeted client has said hello and has no transaction, and the writes succeed. Then it says
    -- MAIL, RCPT for each of one or more recipients, and DATA: `next_message` returns the message with
    -- the sender and with the recipients put in one by one, has answered each command, and has left
    -- unread what follows DATA; the session has no transaction any more.
    pub next_message-Says :
        (from a : Address) (to : List Address) (m r d : Incoming) (is tail : List Incoming)
        (more : Bool) (trace : List Sent)
        → Says (Command.mail_from from) m
        → SaysRecipients (a ∷ to) (r ∷ is)
        → Says Command.data_ d
        → next_message k (state (m ∷ r ∷ (is ++ d ∷ tail)) more trace none) ≡ (
          returned (some (by_data (record { from = from; recipients = insert_all [] (a ∷ to) }))),
          state tail
              (buffered_behind d)
              (replied
                (replied_all (replied trace (codes "250 ok\r\n")) (a ∷ to))
                (codes "354 go ahead\r\n"))
              none,
        )
    unfolding next_message handle handle_mail say on_connection write_flush perform after_handle
    next_message-Says from a to m r d is tail more trace g h e =
        loop-Says (length (m ∷ r ∷ (is ++ d ∷ tail))) (Command.mail_from from) m
          (r ∷ (is ++ d ∷ tail)) more trace none g
        ∙ loop-SaysRecipients (length (m ∷ r ∷ (is ++ d ∷ tail))) from [] (a ∷ to) (r ∷ is) d tail
            (buffered_behind m) (replied trace (codes "250 ok\r\n")) h e
            (omega (arith, length-append is (d ∷ tail)))
            (insert_all-nonempty to (insert k a []) (insert-nonempty a []))
