-- ===== src/Smtp/Reader.antt =====
-- crates/smtp/src/command.rs, `read_cmd`: the next command of a connection. Also
-- crates/smtp/src/io.rs, the answer to QUIT.
pub mod Ends
use brev.Base.{ℕ, zero, suc, Option, none, some, [], ◌++◌, length, codes, crlf}
use brev.Io.{Io, Outcome, returned, failed, stalled, panicked, timed_out, pure, stall, ◌>>=◌, ◌>>◌}
use brev.Line.{ReadLine, line, eof, read_line, write_flush, write, shutdown}
use brev.Nom.{Nom}
use brev.Smtp.Command.{
  EmailAddress, unrecognized_command, invalid_utf8, syntax, Parsed, ok, err, Command, try_from,
}

-- `bye`. Its `write_all` is not flushed.
unfoldable pub bye : Io (Unit {0})
unfolding write shutdown
bye = do write (codes "221 Bye\r\n"); shutdown

-- `timeout(300 s, …)`: a wait for ever becomes an error.
unfoldable pub timeout {ℓ} : {A : Type ℓ} → Outcome A → Outcome A
timeout stalled = failed timed_out
timeout (returned a) = returned a
timeout (failed e) = failed e
timeout panicked = panicked

module _ (nom : Nom) (mail : EmailAddress) where
  -- The body of the loop of `read_cmd_inner`, on what a line is parsed to; `again` is the next round.
  unfoldable pub on_parsed :
      Io (Option (Command nom mail)) → Parsed (Command nom mail) → Io (Option (Command nom mail))
  unfolding write_flush
  on_parsed again (ok c) = pure (some c)
  on_parsed again (err invalid_utf8) = again
  on_parsed again (err (syntax correct)) = do
    write_flush (codes "501 Syntax: " ++ (correct ++ crlf))
    again
  on_parsed again (err unrecognized_command) = do
    write_flush (codes "500 Unrecognized command\r\n")
    again

  unfoldable pub on_line :
      Io (Option (Command nom mail)) → ReadLine → Io (Option (Command nom mail))
  unfolding on_parsed
  on_line again eof = pure none
  on_line again (line buf) = on_parsed again (try_from nom mail buf)

  -- Each round takes one answer of the environment; the fuel is one more than these, and the last
  -- round finds none and waits.
  unfoldable pub read_cmd_within : ℕ → Io (Option (Command nom mail))
  unfolding on_line read_line
  read_cmd_within zero = stall
  read_cmd_within (suc n) = let again = read_cmd_within n in do l ← read_line []; on_line again l

  unfoldable pub read_cmd_inner : Io (Option (Command nom mail))
  unfolding read_cmd_within
  read_cmd_inner w = read_cmd_within (suc (length w.incoming)) w

  unfoldable pub read_cmd : Io (Option (Command nom mail))
  unfolding read_cmd_inner timeout
  read_cmd w = let (o, w') = read_cmd_inner w in (timeout o, w')
