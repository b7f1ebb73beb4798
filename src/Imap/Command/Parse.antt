-- ===== src/Imap/Command/Parse.antt =====
-- crates/imap-proto/src/command.rs: the parser of a command and of its tag.
use brev.Base.{
  Bool, true, false, Option, none, some, take, drop, Bytes, codes, same, to_ascii_uppercase,
  split_or, if◌then◌else◌,
}
use brev.Base.Utf8.{is_utf8}
use brev.Flags.{Bitflags}
use brev.Nom.{Nom}
use brev.Imap.Response.{Tag, with_tag}
use brev.Imap.Capability.{capability_flags}
use brev.Imap.MailboxStatus.{item_flags}
use brev.Imap.Command.{
  syntax, unrecognized_command, of_parse_error, bad, invalid_utf8, Parsed, ok, err, Command, Tagged,
  tagged, refused,
}
use brev.Imap.Command.Args.{
  one_arg, two_args, authenticate_args, enable_args, status_args, fetch_args, string_arg,
}

module _ (caps : Bitflags capability_flags) (items : Bitflags item_flags) (nom : Nom) where
  -- `or_syntax_err`.
  unfoldable pub or_syntax_err :
      Option (Bytes × Command caps items) → Bytes → Parsed (Command caps items)
  or_syntax_err none message = err (syntax message)
  or_syntax_err (some (rest, c)) message = ok c

  -- The arms of `parse_command` that look at UID themselves.
  unfoldable pub parse_either : Bytes → Bool → Bytes → Parsed (Command caps items)
  unfolding same or_syntax_err fetch_args
  parse_either verb is_uid i =
      if same verb (codes "EXPUNGE")
      then ok (Command.expunge is_uid)
      else if same verb (codes "SEARCH")
      then ok (Command.search_ is_uid)
      else if same verb (codes "FETCH")
      then or_syntax_err (fetch_args caps items nom is_uid i)
          (codes "Syntax: FETCH <sequence set> <fetch attribute> [<fetch attribute> ...]")
      else if same verb (codes "STORE")
      then ok (Command.store is_uid)
      else if same verb (codes "COPY")
      then ok (Command.copy is_uid)
      else if same verb (codes "MOVE")
      then ok (Command.move_ is_uid)
      else err unrecognized_command

  -- The arms without UID, in their order; the verb is in upper case.
  unfoldable pub parse_plain : Bytes → Bytes → Parsed (Command caps items)
  unfolding same or_syntax_err string_arg authenticate_args enable_args status_args parse_either
  parse_plain verb i =
      if same verb (codes "CAPABILITY")
      then ok Command.capability
      else if same verb (codes "NOOP")
      then ok Command.noop
      else if same verb (codes "LOGOUT")
      then ok Command.logout
      else if same verb (codes "STARTTLS")
      then ok Command.starttls
      else if same verb (codes "AUTHENTICATE")
      then or_syntax_err (authenticate_args caps items nom i)
          (codes "Syntax: AUTHENTICATE <mechanism> [<initial-response>]")
      else if same verb (codes "LOGIN")
      then or_syntax_err (two_args caps items nom Command.login i)
          (codes "Syntax: LOGIN <username> <password>")
      else if same verb (codes "ENABLE")
      then or_syntax_err (enable_args caps items nom i)
          (codes "Syntax: ENABLE <capability> [<capability> ...]")
      else if same verb (codes "SELECT")
      then or_syntax_err (one_arg caps items nom Command.select i)
          (codes "Syntax: SELECT <mailbox>")
      else if same verb (codes "EXAMINE")
      then or_syntax_err (one_arg caps items nom Command.examine i)
          (codes "Syntax: EXAMINE <mailbox>")
      else if same verb (codes "CREATE")
      then or_syntax_err (one_arg caps items nom Command.create i)
          (codes "Syntax: CREATE <mailbox>")
      else if same verb (codes "DELETE")
      then or_syntax_err (one_arg caps items nom Command.delete i)
          (codes "Syntax: DELETE <mailbox>")
      else if same verb (codes "RENAME")
      then or_syntax_err (two_args caps items nom Command.rename i)
          (codes "Syntax: RENAME <existing> <new>")
      else if same verb (codes "SUBSCRIBE")
      then or_syntax_err (one_arg caps items nom Command.subscribe i)
          (codes "Syntax: SUBSCRIBE <mailbox>")
      else if same verb (codes "UNSUBSCRIBE")
      then or_syntax_err (one_arg caps items nom Command.unsubscribe i)
          (codes "Syntax: UNSUBSCRIBE <mailbox>")
      else if same verb (codes "LIST")
      then or_syntax_err (two_args caps items nom Command.list i)
          (codes "Syntax: LIST <reference> <mailbox>")
      else if same verb (codes "NAMESPACE")
      then ok Command.namespace
      else if same verb (codes "STATUS")
      then or_syntax_err (status_args caps items nom i)
          (codes "Syntax: STATUS <mailbox> <status-data-item> [<status-data-item> ...]")
      else if same verb (codes "APPEND")
      then ok Command.append
      else if same verb (codes "IDLE")
      then ok Command.idle
      else if same verb (codes "CLOSE")
      then ok Command.close
      else if same verb (codes "UNSELECT")
      then ok Command.unselect
      else parse_either verb false i

  unfoldable pub parse_command : Bytes → Bool → Parsed (Command caps items)
  unfolding split_or to_ascii_uppercase parse_plain parse_either
  parse_command s is_uid =
      let (verb, i) = split_or b' ' s in
      if is_uid
      then parse_either (to_ascii_uppercase verb) true i
      else parse_plain (to_ascii_uppercase verb) i

  -- The test of `Command::from_str`. `s.get(0..4)` fails if four bytes are not there or the fourth
  -- is inside a character; then those bytes are not `UID ` either.
  unfoldable pub is_uid_command : Bytes → Bool
  unfolding same to_ascii_uppercase
  is_uid_command s = same (to_ascii_uppercase (take 4 s)) (codes "UID ")

  -- `Command::from_str`.
  unfoldable pub command_from_str : Bytes → Parsed (Command caps items)
  unfolding is_uid_command parse_command
  command_from_str s =
      if is_uid_command s then parse_command (drop 4 s) true else parse_command s false

  unfoldable pub on_kind : Tag → Parsed (Command caps items) → Tagged caps items
  unfolding of_parse_error
  on_kind tag (ok kind) = tagged (record { tag = tag; command = kind })
  on_kind tag (err e) = refused (bad (with_tag (of_parse_error e) tag))

  -- `TaggedCommand::try_from`.
  unfoldable pub tagged_try_from : Bytes → Tagged caps items
  unfolding is_utf8 split_or on_kind command_from_str
  tagged_try_from value =
      let (tag, rest) = split_or b' ' value in
      if is_utf8 value then on_kind tag (command_from_str rest) else refused invalid_utf8
