-- ===== src/Imap/Serve/Anyone.antt =====
-- src/main.rs, the validator `Auth` of both servers.
use brev.Base.{◌≡◌, refl, none, [], Bytes}
use brev.Io.{returned, perform, perform_on, answer}
use brev.Line.{write, flush, write_flush}
use brev.Auth.Plain.{Credentials, Validated, valid}
use brev.Imap.Response.{Tag}
use brev.Imap.Command.{Command}
use brev.Imap.Session.{
  Environment, not_authenticated, authenticated, ImapSession, on_wire, respond, auth_success,
  on_validated, handle_login,
}
use brev.Imap.Session.Loop.{handle}

unfoldable pub validate : Credentials → Validated
validate c = valid c.username

-- With this validator, LOGIN makes every client the user whom it names, whatever the password. The
-- client is not authenticated before, and every write succeeds.
pub login_accepts_anyone :
    (e : Environment) (tag : Tag) (username password : Bytes) (s : ImapSession e)
    → e.validate ≡ validate
    → s.state ≡ not_authenticated
    → s.connection.answers ≡ []
    → ((handle e tag (Command.login username password) s).0 ≡ returned none)
      × ((handle e tag (Command.login username password) s).1.state ≡ authenticated username)
unfolding handle handle_login on_validated auth_success respond on_wire write_flush write flush
    perform perform_on answer validate
login_accepts_anyone e tag username password s v h a = rw (h, v, a) (refl, refl)
