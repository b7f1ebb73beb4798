-- ===== src/Smtp/Bdat.antt =====
-- crates/smtp/src/message/bdat.rs, `next_bdat`: the commands between two chunks of a message.
pub mod Ends
pub mod Body
pub mod Chunks
pub mod Delivered
pub mod Whole
use brev.Base.{ℕ, zero, suc, Bool, Option, none, some, length, codes}
use brev.Io.{Io, unexpected_eof, pure, fail, stall, ◌>>=◌, ◌>>◌}
use brev.Line.{write_flush}
use brev.Nom.{Nom}
use brev.Smtp.Command.{EmailAddress, Command, bdat, quit, rset, noop}
use brev.Smtp.Reader.{bye, read_cmd}

module _ (nom : Nom) (mail : EmailAddress) where
  -- The body of the loop, on the command that is read; `again` is the next round.
  unfoldable pub on_bdat_command : Io (ℕ × Bool) → Option (Command nom mail) → Io (ℕ × Bool)
  unfolding write_flush bye
  on_bdat_command again none = fail unexpected_eof
  on_bdat_command again (some (bdat size last)) = pure (size, last)
  on_bdat_command again (some quit) = do bye; fail unexpected_eof
  on_bdat_command again (some rset) = fail unexpected_eof
  on_bdat_command again (some noop) = do write_flush (codes "250 ok\r\n"); again
  on_bdat_command again (some c) = do write_flush (codes "503 expected BDAT\r\n"); again

  -- Each round reads a command, for which the environment answers at least once; the fuel is one
  -- more than its answers, and with none left the read times out.
  unfoldable pub next_bdat_within : ℕ → Io (ℕ × Bool)
  unfolding on_bdat_command read_cmd
  next_bdat_within zero = stall
  next_bdat_within (suc n) =
      let again = next_bdat_within n in do c ← read_cmd nom mail; on_bdat_command again c

  unfoldable pub next_bdat_rounds : Io (ℕ × Bool)
  unfolding next_bdat_within
  next_bdat_rounds w = next_bdat_within (suc (length w.incoming)) w

  unfoldable pub next_bdat : Io (ℕ × Bool)
  unfolding next_bdat_rounds write_flush
  next_bdat = do write_flush (codes "250 ok\r\n"); next_bdat_rounds
