-- ===== src/Imap/Command/Args.antt =====
-- crates/imap-proto/src/command.rs: the parsers of the arguments of commands.
use brev.Base.{split, Bool, not, Option, some, [], ◌∷◌, Bytes, codes, ◌==◌, ◌>>=◌}
use brev.Auth.{WhichMechanism, mechanism_from_str}
use brev.Flags.{Bitflags, from_iter}
use brev.Nom.{Nom, Parser}
use brev.Imap.Capability.{capability_flags}
use brev.Imap.MailboxStatus.{item_flags}
use brev.Imap.Sequence.{parse_set}
use brev.Imap.Fetch.{parse_items}
use brev.Imap.Command.{Command}

module _ (caps : Bitflags capability_flags) (items : Bitflags item_flags) (nom : Nom) where
  unfoldable pub parse_dquote_str : Parser Bytes
  parse_dquote_str i = do
    open_ ← nom.tag (b'"' ∷ []) i
    text ←
        nom.escaped_transform (nom.none_of (b'\\' ∷ b'"' ∷ [])) b'\\'
          (nom.alt Bytes (nom.tag (b'\\' ∷ [])) (nom.tag (b'"' ∷ []))) open_.0
    close_ ← nom.tag (b'"' ∷ []) text.0
    some (close_.0, text.1)

  unfoldable pub parse_str : Parser Bytes
  unfolding parse_dquote_str
  parse_str =
      nom.alt Bytes (nom.map Bytes Bytes parse_dquote_str (λ s. s))
        (nom.map Bytes Bytes (nom.is_not (b' ' ∷ b'\t' ∷ b'\r' ∷ b'\n' ∷ [])) (λ s. s))

  -- `parse_arg` of `String` and of `SecretString`, of `WhichMechanism`, of an `Option`, of
  -- `Capabilities` and of `status::Items`.
  unfoldable pub string_arg : Parser Bytes
  unfolding parse_str
  string_arg i = do blanks ← nom.space0 i; nom.map Bytes Bytes parse_str (λ s. s) blanks.0

  unfoldable pub mechanism_arg : Parser WhichMechanism
  unfolding parse_str mechanism_from_str
  mechanism_arg i = do
    blanks ← nom.space0 i
    nom.map_res Bytes WhichMechanism parse_str mechanism_from_str blanks.0

  unfoldable pub option_arg : (A : Type 0) → Parser A → Parser (Option A)
  option_arg A parse_arg i = do blanks ← nom.space0 i; nom.opt A parse_arg blanks.0

  unfoldable pub capabilities_arg : Parser caps.Set
  unfolding split from_iter
  capabilities_arg i = do
    blanks ← nom.space0 i
    some ([], from_iter capability_flags caps (split b' ' blanks.0))

  unfoldable pub items_arg : Parser items.Set
  unfolding split from_iter
  items_arg i = do
    blanks ← nom.space0 i
    found ←
        nom.delimited Bytes Bytes Bytes (nom.tag (codes "("))
          (nom.take_while (λ c. not (c == b')'))) (nom.tag (codes ")")) blanks.0
    some (found.0, from_iter item_flags items (split b' ' found.1))

  -- The parsers of the arguments, which the macro `args!` gives; what they leave unread is dropped.
  abbrev pub one_arg : (Bytes → Command caps items) → Parser (Command caps items)
  one_arg make i = do a ← string_arg i; some (a.0, make a.1)

  abbrev pub two_args : (Bytes → Bytes → Command caps items) → Parser (Command caps items)
  two_args make i = do a ← string_arg i; b ← string_arg a.0; some (b.0, make a.1 b.1)

  unfoldable pub authenticate_args : Parser (Command caps items)
  unfolding mechanism_arg option_arg string_arg
  authenticate_args i = do
    m ← mechanism_arg i
    r ← option_arg Bytes string_arg m.0
    some (r.0, Command.authenticate m.1 r.1)

  unfoldable pub enable_args : Parser (Command caps items)
  unfolding capabilities_arg
  enable_args i = do c ← capabilities_arg i; some (c.0, Command.enable c.1)

  unfoldable pub status_args : Parser (Command caps items)
  unfolding string_arg items_arg
  status_args i = do
    m ← string_arg i
    found ← items_arg m.0
    some (found.0, Command.status m.1 found.1)

  unfoldable pub fetch_args : Bool → Parser (Command caps items)
  unfolding parse_set parse_items
  fetch_args is_uid i = do
    set ← parse_set nom i
    blanks ← nom.space1 set.0
    found ← parse_items nom blanks.0
    some (found.0, Command.fetch is_uid set.1 found.1)
