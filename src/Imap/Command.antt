-- ===== src/Imap/Command.antt =====
-- crates/imap-proto/src/command.rs: the commands of IMAP.
pub mod Args
pub mod Parse
pub mod Quoted
pub mod Written
pub mod Sets
pub mod Names
pub mod Words
pub mod RoundTrip
use brev.Base.{
  ℕ, Bool, true, false, not, Option, none, some, List, [], ◌∷◌, ◌++◌, length, take, drop, leb,
  Bytes, codes, same, to_ascii_uppercase, split_once, split_or, if◌then◌else◌, ◌==◌, ◌>>=◌,
}
use brev.Base.Utf8.{is_utf8}
use brev.Auth.{WhichMechanism, mechanism_from_str}
use brev.Flags.{Bitflags, from_iter}
use brev.Nom.{Nom, Parser}
use brev.Imap.Response.{Tag, StatusResponse, TaggedStatusResponse, respond_bad, with_tag}
use brev.Imap.Capability.{capability_flags}
use brev.Imap.MailboxStatus.{item_flags}
use brev.Imap.Sequence.{SequenceSet, parse_set}
use brev.Imap.Fetch.{FetchItems, parse_items}

pub data CommandName : Type 0 where
  capability noop logout starttls authenticate login enable select examine create : CommandName
  delete rename subscribe unsubscribe list namespace status append idle close : CommandName
  unselect expunge search_ fetch store copy move_ : CommandName

pub data ParseError : Type 0 where
  syntax : Bytes → ParseError
  unrecognized_command : ParseError

-- `From<ParseError> for StatusResponse`.
unfoldable pub of_parse_error : ParseError → StatusResponse
of_parse_error (syntax s) = respond_bad s
of_parse_error unrecognized_command = respond_bad (codes "Unrecognized command")

pub data Error : Type 0 where
  bad : TaggedStatusResponse → Error
  invalid_utf8 : Error

pub data Parsed {ℓ} (A : Type ℓ) : Type ℓ where
  ok : A → Parsed A
  err : ParseError → Parsed A

module _ (caps : Bitflags capability_flags) (items : Bitflags item_flags) where
  -- The arguments of a command stand in its constructor.
  pub data Command : Type 0 where
    capability noop logout starttls : Command
    authenticate : WhichMechanism → Option Bytes → Command
    login : Bytes → Bytes → Command
    enable : caps.Set → Command
    select examine create delete : Bytes → Command
    rename : Bytes → Bytes → Command
    subscribe unsubscribe : Bytes → Command
    list : Bytes → Bytes → Command
    namespace : Command
    status : Bytes → items.Set → Command
    append idle close unselect : Command
    expunge search_ : Bool → Command
    fetch : Bool → SequenceSet → FetchItems → Command
    store copy move_ : Bool → Command

  -- `Command::name`.
  unfoldable pub name : Command → CommandName
  name Command.capability = CommandName.capability
  name Command.noop = CommandName.noop
  name Command.logout = CommandName.logout
  name Command.starttls = CommandName.starttls
  name (Command.authenticate m r) = CommandName.authenticate
  name (Command.login u p) = CommandName.login
  name (Command.enable c) = CommandName.enable
  name (Command.select m) = CommandName.select
  name (Command.examine m) = CommandName.examine
  name (Command.create m) = CommandName.create
  name (Command.delete m) = CommandName.delete
  name (Command.rename m n) = CommandName.rename
  name (Command.subscribe m) = CommandName.subscribe
  name (Command.unsubscribe m) = CommandName.unsubscribe
  name (Command.list r m) = CommandName.list
  name Command.namespace = CommandName.namespace
  name (Command.status m i) = CommandName.status
  name Command.append = CommandName.append
  name Command.idle = CommandName.idle
  name Command.close = CommandName.close
  name Command.unselect = CommandName.unselect
  name (Command.expunge u) = CommandName.expunge
  name (Command.search_ u) = CommandName.search_
  name (Command.fetch u s i) = CommandName.fetch
  name (Command.store u) = CommandName.store
  name (Command.copy u) = CommandName.copy
  name (Command.move_ u) = CommandName.move_

  pub record TaggedCommand : Type 0 where
    pub tag : Tag
    pub command : Command

  pub data Tagged : Type 0 where
    tagged : TaggedCommand → Tagged
    refused : Error → Tagged
