-- ===== src/Smtp/Session.antt =====
-- crates/smtp/src/server/session.rs: the dialogue with a client up to the next message, and from
-- crates/smtp/src/message.rs the envelope and the message that is handed over.
pub mod Keeps
pub mod Invariant
pub mod Transaction
pub mod Settles
pub mod Ends
use brev.Base.{
  ℕ, zero, suc, Bool, true, false, Option, none, some, List, [], ◌∷◌, ◌++◌, length, Bytes, codes,
  crlf, if◌then◌else◌, ◌||◌,
}
use brev.Io.{World, Io, Async, returned, pure, stall, ◌>>=◌, ◌>>◌}
use brev.Line.{write_flush, upgrade, is_plain, is_tls}
use brev.Flags.{Bitflags}
use brev.Nom.{Nom}
use brev.Smtp.Command.{
  EmailAddress, Command, helo, ehlo, mail_from, rcpt_to, rset, data_, noop, quit, starttls, bdat,
  auth,
}
use brev.Smtp.Ehlo
use brev.Smtp.Ehlo.{extensions, auths, eightbitmime, smtputf8, chunking, login, plain, to_string}
use brev.Smtp.Reader.{bye, read_cmd}

-- The crates that the session uses.
pub record Crates : Type 1 where
  pub nom : Nom
  pub mail : EmailAddress
  pub ext : Bitflags extensions
  pub auth_flags : Bitflags auths

-- `Context`; its validator is not used.
pub record Context : Type 0 where
  pub hostname : Bytes
  pub tls : Bool

module _ (k : Crates) where
  open k use {nom, mail, ext, auth_flags}
  open mail use {Address, equal}

  -- The recipients are a set, kept here without repetition; no result depends on their order.
  pub record Envelope : Type 0 where
    pub from : Address
    pub recipients : List Address

  unfoldable pub contains : List Address → Address → Bool
  contains [] a = false
  contains (x ∷ xs) a = equal x a || contains xs a

  unfoldable pub insert : Address → List Address → List Address
  unfolding contains
  insert a xs = if contains xs a then xs else a ∷ xs

  pub data Incoming : Type 0 where
    by_data : Envelope → Incoming
    by_bdat : Envelope → ℕ → Bool → Incoming

  pub record Session : Type 0 where
    pub connection : World
    pub envelope : Option Envelope
    pub helo_domain : Option Bytes
    pub identity : Option Bytes
    pub greeted : Bool
    pub config : Context

  -- `Session::new`.
  abbrev pub session_on : World → Context → Session
  session_on stream config = record {
    connection = stream;
    envelope = none;
    helo_domain = none;
    identity = none;
    greeted = false;
    config = config;
  }

  -- An action on the session's connection.
  unfoldable pub on_connection {ℓ} : {A : Type ℓ} → Io A → Async Session A
  on_connection io s = let (o, w) = io s.connection in (o, record s { connection = w })

  unfoldable pub say : Bytes → Async Session (Unit {0})
  unfolding on_connection
  say text = on_connection (write_flush text)

  -- An assignment to fields of `self`.
  abbrev pub modify : (Session → Session) → Async Session (Unit {0})
  modify f s = (returned tt, f s)

  abbrev pub reset_mail_txn : Session → Session
  reset_mail_txn s = record s { envelope = none }

  unfoldable pub greet : Async Session (Unit {0})
  unfolding say
  greet s = say (codes "220 " ++ (s.config.hostname ++ crlf)) s

  -- The arms of `take_envelope`, after `take()` has emptied the field; on the recipients.
  unfoldable pub taken_with : Envelope → List Address → Async Session (Option Envelope)
  unfolding say
  taken_with e [] = do
    say (codes "554 no recipients\r\n")
    modify (λ s. record s { envelope = some e })
    pure none
  taken_with e (a ∷ rest) = pure (some e)

  unfoldable pub taken : Option Envelope → Async Session (Option Envelope)
  unfolding say taken_with
  taken none = do say (codes "503 need MAIL command\r\n"); pure none
  taken (some e) = taken_with e e.recipients

  unfoldable pub take_envelope : Async Session (Option Envelope)
  unfolding taken
  take_envelope s = taken s.envelope (record s { envelope = none })

  unfoldable pub ehlo_response : Session → Ehlo.Response ext auth_flags
  ehlo_response s =
      let base =
        ext.union (ext.union (ext.flag eightbitmime) (ext.flag smtputf8)) (ext.flag chunking) in
      record {
        domain = s.config.hostname;
        offered =
            if s.config.tls
            then (if is_plain s.connection then ext.union base (ext.flag Ehlo.starttls) else base)
            else base;
        size = none;
        mechanisms = auth_flags.all;
      }

  unfoldable pub say_ehlo : Async Session (Unit {0})
  unfolding say ehlo_response
  say_ehlo s = say (to_string ext auth_flags (ehlo_response s)) s

  unfoldable pub handle_ehlo : Bytes → Async Session (Unit {0})
  unfolding say_ehlo
  handle_ehlo domain = do
    modify (λ s. record (reset_mail_txn s) { helo_domain = some domain })
    say_ehlo

  -- `starttls`, on whether the connection is encrypted and whether TLS is configured.
  unfoldable pub starttls_on : Bool → Bool → Async Session (Unit {0})
  unfolding say on_connection
  starttls_on true configured = say (codes "454 Already using TLS\r\n")
  starttls_on false false = say (codes "454 TLS not available\r\n")
  starttls_on false true = do
    say (codes "220 Go ahead\r\n")
    on_connection upgrade
    modify (λ s. reset_mail_txn (record s { helo_domain = none; identity = none }))

  unfoldable pub handle_starttls : Async Session (Unit {0})
  unfolding starttls_on
  handle_starttls s = starttls_on (is_tls s.connection) s.config.tls s

  unfoldable pub handle_mail : Address → Option Bytes → Option Envelope → Async Session (Unit {0})
  unfolding say
  handle_mail from none envelope = say (codes "503 say HELO first\r\n")
  handle_mail from (some domain) (some e) = say (codes "501 transaction already started\r\n")
  handle_mail from (some domain) none = do
    modify (λ s. record s { envelope = some (record { from = from; recipients = [] }) })
    say (codes "250 ok\r\n")

  unfoldable pub handle_rcpt : Address → Option Envelope → Async Session (Unit {0})
  unfolding say insert
  handle_rcpt to none = say (codes "503 need MAIL command\r\n")
  handle_rcpt to (some e) = do
    modify (λ s. record s { envelope = some (record e { recipients = insert to e.recipients }) })
    say (codes "250 ok\r\n")

  unfoldable pub handle_auth : Option Envelope → Option Bytes → Async Session (Unit {0})
  unfolding say
  handle_auth (some e) identity = say (codes "503 transaction already started\r\n")
  handle_auth none (some i) = say (codes "503 already authenticated\r\n")
  handle_auth none none = say (codes "235 welcome\r\n")

  -- `go on` is a turn of the loop, `some m` a `return Ok(Some(m))`.
  unfoldable pub on_data : Option Envelope → Async Session (Option Incoming)
  unfolding say
  on_data none = pure none
  on_data (some e) = do say (codes "354 go ahead\r\n"); pure (some (by_data e))

  unfoldable pub on_bdat : ℕ → Bool → Option Envelope → Async Session (Option Incoming)
  on_bdat size last none = pure none
  on_bdat size last (some e) = pure (some (by_bdat e size last))

  -- One arm of the `match` in `next_message`. `none` is a turn of the loop, `some m` the return of a
  -- message.
  unfoldable pub handle : Command nom mail → Async Session (Option Incoming)
  unfolding say handle_ehlo handle_mail handle_rcpt handle_starttls handle_auth take_envelope
      on_data on_bdat on_connection
  handle (helo domain) = do
    modify (λ s. record (reset_mail_txn s) { helo_domain = some domain })
    say (codes "250 hello\r\n")
    pure none
  handle (ehlo domain) = do handle_ehlo domain; pure none
  handle (mail_from from) = do (λ s. handle_mail from s.helo_domain s.envelope s); pure none
  handle (rcpt_to to) = do (λ s. handle_rcpt to s.envelope s); pure none
  handle data_ = do e ← take_envelope; on_data e
  handle rset = do modify reset_mail_txn; say (codes "250 ok\r\n"); pure none
  handle (bdat size last) = do e ← take_envelope; on_bdat size last e
  handle quit = do on_connection bye; pure none
  handle noop = do say (codes "250 ok\r\n"); pure none
  handle starttls = do handle_starttls; pure none
  handle (auth mechanism response) = do (λ s. handle_auth s.envelope s.identity s); pure none

  unfoldable pub after_handle :
      Async Session (Option Incoming) → Option Incoming → Async Session (Option Incoming)
  after_handle again none = again
  after_handle again (some m) = pure (some m)

  unfoldable pub on_command :
      Async Session (Option Incoming) → Option (Command nom mail) → Async Session (Option Incoming)
  unfolding handle after_handle
  on_command again none = pure none
  on_command again (some c) = do r ← handle c; after_handle again r

  -- Each turn reads a command, for which the environment answers at least once; the fuel is one more
  -- than its answers, and with none left the read times out.
  unfoldable pub loop_within : ℕ → Async Session (Option Incoming)
  unfolding on_command on_connection read_cmd
  loop_within zero = stall
  loop_within (suc n) =
      let again = loop_within n in do c ← on_connection (read_cmd nom mail); on_command again c

  unfoldable pub greet_once : Bool → Async Session (Unit {0})
  unfolding greet
  greet_once true = pure tt
  greet_once false = do greet; modify (λ s. record s { greeted = true })

  unfoldable pub next_message : Async Session (Option Incoming)
  unfolding greet_once loop_within
  next_message = do
    (λ s. greet_once s.greeted s)
    λ s. loop_within (suc (length s.connection.incoming)) s
