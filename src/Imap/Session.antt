-- ===== src/Imap/Session.antt =====
-- crates/imap/src/server/session.rs: the dialogue with a client up to the next operation. What the
-- channel of the queue finds during a call is in the queue.
pub mod Loop
pub mod Rules
pub mod Handlers
pub mod Awaits
pub mod Results
pub mod Turns
pub mod Invariant
pub mod Examine
pub mod Finishes
pub mod Consumes
pub mod Reads
pub mod Ends
use brev.Base.{
  ℕ, zero, suc, Bool, true, false, Option, none, some, List, [], ◌∷◌, ◌++◌, length, Bytes, codes,
  crlf, if◌then◌else◌,
}
use brev.Io.{
  World, Io, Async, Outcome, returned, failed, pure, fail, stall, panic, unexpected_eof, ◌>>=◌,
  ◌>>◌,
}
use brev.Line.{write, write_flush, shutdown, upgrade, is_plain, is_tls}
use brev.Flags.{Bitflags}
use brev.Nom.{Nom}
use brev.Auth.{WhichMechanism}
use brev.Auth.Plain.{Credentials, Validated, valid, invalid}
use brev.Imap.Response.{
  Tag, TaggedStatusResponse, StatusResponse, respond_ok, respond_bad, with_tag, tagged_to_string,
  of_validation_error, of_mechanism_error,
}
use brev.Imap.Capability
use brev.Imap.Capability.{capability_flags, capabilities_to_string}
use brev.Imap.MailboxStatus.{item_flags}
use brev.Imap.List.{attribute_flags}
use brev.Imap.Command.{CommandName, Command, TaggedCommand, name}
use brev.Imap.Queue
use brev.Imap.Queue.{Queue, ready, wait, insert, must_wait_before}
use brev.Imap.Authenticate.{Base64, Authenticated, identity, mechanism_error, authenticate}
use brev.Imap.Ops.{
  SelectedState, Operation, operation_tag, operation_name, OpResponse, OpResult, SelectResult, done,
  into_tagged_response, select_to_string,
}
use brev.Imap.Ops
use brev.Imap.Reader.{read_tagged}

-- The crates that the session uses, and the validator.
pub record Environment : Type 1 where
  pub nom : Nom
  pub caps : Bitflags capability_flags
  pub items : Bitflags item_flags
  pub attributes : Bitflags attribute_flags
  pub base64 : Base64
  pub validate : Credentials → Validated

pub data State : Type 0 where
  not_authenticated logout : State
  authenticated : Bytes → State
  selected : SelectedState → State

-- `From<Login>` of crates/imap-proto/src/command.rs.
abbrev pub of_login : Bytes → Bytes → Credentials
of_login username password = record { username = username; password = password }

module _ (e : Environment) where
  open e use {nom, caps, items, attributes, base64, validate}

  abbrev pub Payload : Type 0
  Payload = Tag × OpResult attributes

  pub record ImapSession : Type 0 where
    pub connection : World
    pub state : State
    pub queue : Queue (OpResult attributes)
    pub greeted : Bool
    pub tls : Bool

  abbrev pub Act {ℓ} : Type ℓ → Type ℓ
  Act A = Async ImapSession A

  unfoldable pub on_wire {ℓ} : {A : Type ℓ} → Io A → Act A
  on_wire io s = let (o, w) = io s.connection in (o, record s { connection = w })

  unfoldable pub on_queue : {A : Type 0} → Async (Queue (OpResult attributes)) A → Act A
  on_queue m s = let (o, q) = m s.queue in (o, record s { queue = q })

  -- An assignment to the state.
  abbrev pub become : State → Act (Unit {0})
  become state s = (returned tt, record s { state = state })

  unfoldable pub capabilities : ImapSession → caps.Set
  capabilities s =
      let base =
        caps.union
          (caps.union (caps.union (caps.flag Capability.imap4rev1) (caps.flag Capability.imap4rev2))
            (caps.flag Capability.auth_plain))
          (caps.flag Capability.sasl_ir) in
      let plain = caps.union base (caps.flag Capability.logindisabled) in
      if is_plain s.connection
      then (if s.tls then caps.union plain (caps.flag Capability.starttls) else plain)
      else base

  unfoldable pub greet : Act (Unit {0})
  unfolding on_wire capabilities
  greet s =
      on_wire
        (write_flush (
          codes "* OK ["
          ++ (capabilities_to_string caps (capabilities s) ++ codes "] Server ready\r\n")))
        s

  unfoldable pub write_untagged : Bytes → Act (Unit {0})
  unfolding on_wire
  write_untagged text = on_wire (write (codes "* " ++ (text ++ crlf)))

  unfoldable pub respond : TaggedStatusResponse → Act (Unit {0})
  unfolding on_wire
  respond res = on_wire (write_flush (tagged_to_string res))

  abbrev pub say_ok : Tag → Bytes → Act (Unit {0})
  say_ok tag message = respond (with_tag (respond_ok message) tag)

  abbrev pub say_bad : Tag → Bytes → Act (Unit {0})
  say_bad tag message = respond (with_tag (respond_bad message) tag)

  -- `respond_with_tag`, on the text of the response; none is a `todo!()`.
  unfoldable pub respond_with_tag : Option Bytes → Act (Unit {0})
  unfolding on_wire
  respond_with_tag none = panic
  respond_with_tag (some text) = on_wire (write_flush text)

  unfoldable pub handle_capability : Tag → Act (Unit {0})
  unfolding write_untagged capabilities respond
  handle_capability tag = do
    (λ s. write_untagged (capabilities_to_string caps (capabilities s)) s)
    say_ok tag (codes "CAPABILITY completed")

  unfoldable pub handle_logout : Tag → Act (Unit {0})
  unfolding write_untagged respond on_wire
  handle_logout tag = do
    become logout
    write_untagged (codes "BYE")
    say_ok tag (codes "Logged out")
    on_wire shutdown

  -- `handle_starttls`, on whether the connection is encrypted and whether TLS is configured.
  unfoldable pub starttls_on : Tag → Bool → Bool → Act (Unit {0})
  unfolding respond on_wire
  starttls_on tag true configured = say_bad tag (codes "Already using TLS")
  starttls_on tag false false = say_bad tag (codes "TLS not available")
  starttls_on tag false true = do say_bad tag (codes "Begin TLS negotiation"); on_wire upgrade

  unfoldable pub handle_starttls : Tag → Act (Unit {0})
  unfolding starttls_on
  handle_starttls tag s = starttls_on tag (is_tls s.connection) s.tls s

  unfoldable pub auth_success : Tag → Bytes → Act (Unit {0})
  unfolding respond
  auth_success tag who = do say_ok tag (codes "Logged in"); become (authenticated who)

  unfoldable pub on_authenticated : Tag → Authenticated → Act (Unit {0})
  unfolding auth_success respond
  on_authenticated tag (identity who) = auth_success tag who
  on_authenticated tag (mechanism_error err) = respond (with_tag (of_mechanism_error err) tag)

  unfoldable pub handle_authenticate : Tag → WhichMechanism → Option Bytes → State → Act (Unit {0})
  unfolding respond on_wire on_authenticated
  handle_authenticate tag mechanism initial not_authenticated = do
    a ← on_wire (authenticate base64 validate mechanism initial)
    on_authenticated tag a
  handle_authenticate tag mechanism initial _ = say_bad tag (codes "Already authenticated")

  unfoldable pub on_validated : Tag → Validated → Act (Unit {0})
  unfolding auth_success respond
  on_validated tag (valid who) = auth_success tag who
  on_validated tag (invalid err) = respond (with_tag (of_validation_error err) tag)

  unfoldable pub handle_login : Tag → Bytes → Bytes → State → Act (Unit {0})
  unfolding respond on_validated
  handle_login tag username password not_authenticated =
      on_validated tag (validate (of_login username password))
  handle_login tag username password _ = say_bad tag (codes "Already authenticated")

  unfoldable pub handle_enable : Tag → caps.Set → Act (Unit {0})
  unfolding respond
  handle_enable tag wanted =
      if caps.is_empty wanted
      then say_bad tag (codes "No capabilities specified")
      else say_bad tag (codes "ENABLE not supported")
