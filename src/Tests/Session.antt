-- ===== src/Tests/Session.antt =====
-- crates/smtp/src/server/session.rs at concrete inputs.
use brev.Base.{◌≢◌, none, Bytes, false, [], ◌∷◌, codes, refl}
use brev.Io.Laws.{Post}
use brev.Smtp.Command.{Command}
use brev.Smtp.Session.{Session, next_message}
use brev.Smtp.Session.Keeps.{IsValid, Turned}
use brev.Smtp.Session.Invariant.{next_message-Turned}
use brev.Io.{stalled}
use brev.Smtp.Session.Ends.{next_message_ends}
use brev.Base.{◌++◌, crlf, some, ◌≡◌, trim_line}
use brev.Io.{Incoming, chunk, returned, plain}
use brev.Smtp.Command.{try_from, parse_verb, mailbox}
use brev.Smtp.Session.{by_data}
use brev.Smtp.Session.Transaction.{
  Says, spoken, insert_all, replied, replied_all, state, next_message-Says,
}
use brev.Tests.Samples.{context}
use brev.Tests.Samples.{crates, begins, says}

-- A client that sends one message.
abbrev client : Session crates
client =
    begins
      (says (codes "HELO me" ∷ codes "MAIL FROM:<a@b>" ∷ codes "RCPT TO:<c@d>" ∷ codes "DATA" ∷ []))

client-IsValid : IsValid crates client
client-IsValid = record { helo_first = λ h. refl; anonymous = refl }

next_message-Turned_example :
    Post
      (Turned crates)
      (IsValid crates)
      (next_message crates client).0
      (next_message crates client).1
next_message-Turned_example = (next_message-Turned crates).at client client-IsValid

next_message_ends_example : (next_message crates client).0 ≢ stalled
next_message_ends_example = next_message_ends crates client tt

abbrev client_line : Bytes → Incoming
client_line l = chunk (l ++ crlf) false

mail_first : Says crates (Command.mail_from (codes "a@b")) (client_line (codes "MAIL FROM:<a@b>"))
unfolding try_from trim_line parse_verb mailbox
mail_first = spoken refl

rcpt_then : Says crates (Command.rcpt_to (codes "c@d")) (client_line (codes "RCPT TO:<c@d>"))
unfolding try_from trim_line parse_verb mailbox
rcpt_then = spoken refl

data_last : Says crates Command.data_ (client_line (codes "DATA"))
unfolding try_from trim_line parse_verb
data_last = spoken refl

next_message-Says_example :
    next_message crates (
      state crates plain context
        (codes "me")
        (client_line (codes "MAIL FROM:<a@b>")
          ∷ client_line (codes "RCPT TO:<c@d>")
          ∷ client_line (codes "DATA")
          ∷ [])
        false
        []
        none)
    ≡ (
      returned (
          some (
            by_data (record {
              from = codes "a@b";
              recipients = insert_all crates [] (codes "c@d" ∷ []);
            }))),
      state crates plain context
          (codes "me")
          []
          false
          (replied
            (replied_all crates (replied [] (codes "250 ok\r\n")) (codes "c@d" ∷ []))
            (codes "354 go ahead\r\n"))
          none,
    )
next_message-Says_example =
    next_message-Says crates plain context (codes "me") (codes "a@b") (codes "c@d") []
      (client_line (codes "MAIL FROM:<a@b>")) (client_line (codes "RCPT TO:<c@d>"))
      (client_line (codes "DATA")) [] [] false [] mail_first (rcpt_then, tt) data_last
