-- ===== src/Smtp/Command.antt =====
-- crates/smtp/src/command.rs: the commands of SMTP and their parser. Mail addresses are those of
-- the crate `email_address`, which is not part of the repository: its type and its parser are the
-- parameter `EmailAddress`.
pub mod RoundTrip
use brev.Base.{
  ℕ, ◌^◌, Bool, true, false, Option, none, some, ◌≡◌, ◌↔◌, Bytes, codes, same, to_ascii_uppercase,
  split_once, split_or, if◌then◌else◌, ◌>>=◌,
}
use brev.Base.Decimal.{parse_uint}
use brev.Base.Utf8.{is_utf8}
use brev.Auth.{WhichMechanism, mechanism_from_str}
use brev.Nom.{Nom, Parser}

pub record EmailAddress : Type 1 where
  pub Address : Type 0
  pub from_str : Bytes → Option Address
  -- `Eq`, by which a set of addresses tells them apart.
  pub equal : Address → Address → Bool
  pub equal_iff : (a b : Address) → (equal a b ≡ true) ↔ (a ≡ b)

pub data Error : Type 0 where
  unrecognized_command invalid_utf8 : Error
  syntax : Bytes → Error

pub data Parsed {ℓ} (A : Type ℓ) : Type ℓ where
  ok : A → Parsed A
  err : Error → Parsed A

-- `ok_or`, and `?` with what follows it.
unfoldable pub ok_or {ℓ κ} :
    {A : Type ℓ} {B : Type κ} → Option A → Error → (A → Parsed B) → Parsed B
ok_or none e f = err e
ok_or (some a) e f = f a

-- `s.splitn(2, ' ')`: its first item and its second.
unfoldable pub splitn_two : Bytes → Bytes × Option Bytes
unfolding split_once
splitn_two s = elim (split_once b' ' s) [ none ↦ (s, none) | some (a, b) ↦ (a, some b) ]

abbrev pub u64_limit : ℕ
u64_limit = 2 ^ 64

-- `args.next().map_or(false, |s| s.to_ascii_uppercase() == "LAST")`
unfoldable pub is_last : Option Bytes → Bool
unfolding same to_ascii_uppercase
is_last none = false
is_last (some s) = same (to_ascii_uppercase s) (codes "LAST")

module _ (nom : Nom) (mail : EmailAddress) where
  open mail use {Address, from_str}

  pub data Command : Type 0 where
    helo ehlo : Bytes → Command
    mail_from rcpt_to : Address → Command
    rset data_ noop quit starttls : Command
    bdat : ℕ → Bool → Command
    auth : WhichMechanism → Option Bytes → Command

  unfoldable pub parse_mailbox : Parser Address
  parse_mailbox i = do
    before ← nom.take_until (codes "<") i
    nom.map_res Bytes Address
        (nom.delimited Bytes Bytes Bytes (nom.tag (codes "<")) (nom.take_until (codes ">"))
          (nom.tag (codes ">")))
        from_str before.0

  unfoldable pub mailbox : Bytes → Option Address
  unfolding parse_mailbox
  mailbox i = do found ← parse_mailbox i; some found.1

  unfoldable pub parse_bdat : Bytes → Parsed Command
  unfolding ok_or splitn_two is_last
  parse_bdat args =
      let (size, last) = splitn_two args in
      ok_or (parse_uint u64_limit size) (syntax (codes "BDAT <size>"))
        λ n. ok (bdat n (is_last last))

  unfoldable pub parse_auth : Bytes → Parsed Command
  unfolding ok_or splitn_two
  parse_auth args =
      let (mechanism, response) = splitn_two args in
      ok_or (mechanism_from_str mechanism) (syntax (codes "AUTH <mechanism> [initial-response]"))
        λ m. ok (auth m response)

  -- The `match` on the verb in upper case.
  unfoldable pub parse_verb : Bytes → Bytes → Parsed Command
  unfolding same ok_or
  parse_verb verb args =
      if same verb (codes "HELO")
      then ok (helo args)
      else if same verb (codes "EHLO")
      then ok (ehlo args)
      else if same verb (codes "MAIL")
      then ok_or (mailbox args) (syntax (codes "MAIL FROM:<address>")) (λ a. ok (mail_from a))
      else if same verb (codes "RCPT")
      then ok_or (mailbox args) (syntax (codes "RCPT TO:<address>")) (λ a. ok (rcpt_to a))
      else if same verb (codes "DATA")
      then ok data_
      else if same verb (codes "RSET")
      then ok rset
      else if same verb (codes "NOOP")
      then ok noop
      else if same verb (codes "QUIT")
      then ok quit
      else if same verb (codes "BDAT")
      then parse_bdat args
      else if same verb (codes "STARTTLS")
      then ok starttls
      else if same verb (codes "AUTH")
      then parse_auth args
      else err unrecognized_command

  -- `Command::try_from`.
  unfoldable pub try_from : Bytes → Parsed Command
  unfolding is_utf8 split_or to_ascii_uppercase parse_verb
  try_from bytes =
      let (verb, args) = split_or b' ' bytes in
      if is_utf8 bytes then parse_verb (to_ascii_uppercase verb) args else err invalid_utf8
