-- ===== src/Imap/Reader.antt =====
-- crates/imap/src/server.rs, `read_cmd`: the next command of a connection.
pub mod Finishes
use brev.Base.{ℕ, zero, suc, Option, none, some, [], length}
use brev.Flags.{Bitflags}
use brev.Io.{Io, pure, stall, ◌>>=◌, ◌>>◌}
use brev.Line.{ReadLine, line, eof, read_line, write_flush}
use brev.Nom.{Nom}
use brev.Imap.Capability.{capability_flags}
use brev.Imap.MailboxStatus.{item_flags}
use brev.Imap.Response.{tagged_to_string}
use brev.Imap.Command.{bad, invalid_utf8, TaggedCommand, Tagged, tagged, refused}
use brev.Imap.Command.Parse.{tagged_try_from}

module _ (caps : Bitflags capability_flags) (items : Bitflags item_flags) (nom : Nom) where
  -- The body of the loop, on what a line is parsed to; `again` is the next round.
  unfoldable pub on_tagged :
      Io (Option (TaggedCommand caps items))
      → Tagged caps items
      → Io (Option (TaggedCommand caps items))
  unfolding write_flush tagged_to_string
  on_tagged again (tagged c) = pure (some c)
  on_tagged again (refused (bad res)) = do write_flush (tagged_to_string res); again
  on_tagged again (refused invalid_utf8) = again

  unfoldable pub on_imap_line :
      Io (Option (TaggedCommand caps items)) → ReadLine → Io (Option (TaggedCommand caps items))
  unfolding on_tagged tagged_try_from
  on_imap_line again eof = pure none
  on_imap_line again (line buf) = on_tagged again (tagged_try_from caps items nom buf)

  -- Each round takes one answer of the environment; the fuel is one more than these, and the last
  -- round finds none and waits.
  unfoldable pub read_tagged_within : ℕ → Io (Option (TaggedCommand caps items))
  unfolding on_imap_line read_line
  read_tagged_within zero = stall
  read_tagged_within (suc n) =
      let again = read_tagged_within n in do l ← read_line []; on_imap_line again l

  unfoldable pub read_tagged : Io (Option (TaggedCommand caps items))
  unfolding read_tagged_within
  read_tagged w = read_tagged_within (suc (length w.incoming)) w
