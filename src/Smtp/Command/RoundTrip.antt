-- ===== src/Smtp/Command/RoundTrip.antt =====
-- What a client writes for a command is parsed back to that command.
use brev.Base.{
  ℕ, ◌<◌, ◌≡◌, refl, ◌∙◌, true, false, Option, none, some, [], ◌∷◌, ◌++◌, Bytes, codes,
  to_ascii_uppercase, split_once, split_once-append, split_or-append, split_or-none,
  split_once-to_ascii_uppercase, ◌>>=◌,
}
use brev.Base.Decimal.{show, parse_uint-show, split_once-show}
use brev.Base.Utf8.{is_utf8}
use brev.Auth.{plain, mechanism_from_str}
use brev.Nom.{Nom, Lawful}
use brev.Smtp.Command.{
  EmailAddress, ok, splitn_two, is_last, u64_limit, Command, mailbox, parse_bdat, parse_auth,
  parse_verb, try_from,
}

-- `v` is the verb `name`, in whatever case.
abbrev pub Spells : Bytes → Bytes → Type 0
Spells v name = (to_ascii_uppercase v ≡ name) × (split_once b' ' name ≡ none)

splitn_two-append :
    (a b : Bytes) → split_once b' ' a ≡ none → splitn_two (a ++ b' ' ∷ b) ≡ (a, some b)
unfolding splitn_two
splitn_two-append a b h = rw (split_once-append b' ' a b h, splitn_two)

splitn_two-none : (a : Bytes) → split_once b' ' a ≡ none → splitn_two a ≡ (a, none)
unfolding splitn_two
splitn_two-none a h = rw (h, splitn_two)

mechanism_from_str-plain :
    (m : Bytes) → to_ascii_uppercase m ≡ codes "PLAIN" → mechanism_from_str m ≡ some plain
unfolding mechanism_from_str
mechanism_from_str-plain m h = rw h

is_last-last : (l : Bytes) → to_ascii_uppercase l ≡ codes "LAST" → is_last (some l) ≡ true
unfolding is_last
is_last-last l h = rw h

second_of :
    {A : Type 0} (o : Option A) (rest : Bytes)
    → (o >>= (λ a. some (rest, a)) >>= λ (p : Bytes × A). some p.1) ≡ o
second_of none rest = refl
second_of (some a) rest = refl

module _ (nom : Nom) (mail : EmailAddress) where
  open mail use {Address, from_str}

  -- `bs` is a way to write the command. Between the blank and `<` of MAIL and RCPT stands any text
  -- without `<`, and behind `>` anything.
  pub data Writes : Command nom mail → Bytes → Type 0 where
    helo :
        (v d : Bytes)
        → to_ascii_uppercase v ≡ codes "HELO"
        → Writes (Command.helo d) (v ++ b' ' ∷ d)
    ehlo :
        (v d : Bytes)
        → to_ascii_uppercase v ≡ codes "EHLO"
        → Writes (Command.ehlo d) (v ++ b' ' ∷ d)
    mail_from :
        (v before t after : Bytes) {a : Address}
        → to_ascii_uppercase v ≡ codes "MAIL"
        → split_once b'<' before ≡ none
        → split_once b'>' t ≡ none
        → from_str t ≡ some a
        → Writes (Command.mail_from a) (v ++ b' ' ∷ (before ++ b'<' ∷ (t ++ b'>' ∷ after)))
    rcpt_to :
        (v before t after : Bytes) {a : Address}
        → to_ascii_uppercase v ≡ codes "RCPT"
        → split_once b'<' before ≡ none
        → split_once b'>' t ≡ none
        → from_str t ≡ some a
        → Writes (Command.rcpt_to a) (v ++ b' ' ∷ (before ++ b'<' ∷ (t ++ b'>' ∷ after)))
    data_ : (v : Bytes) → to_ascii_uppercase v ≡ codes "DATA" → Writes Command.data_ v
    rset : (v : Bytes) → to_ascii_uppercase v ≡ codes "RSET" → Writes Command.rset v
    noop : (v : Bytes) → to_ascii_uppercase v ≡ codes "NOOP" → Writes Command.noop v
    quit : (v : Bytes) → to_ascii_uppercase v ≡ codes "QUIT" → Writes Command.quit v
    starttls : (v : Bytes) → to_ascii_uppercase v ≡ codes "STARTTLS" → Writes Command.starttls v
    bdat :
        (v : Bytes) (n : ℕ)
        → to_ascii_uppercase v ≡ codes "BDAT"
        → n < u64_limit
        → Writes (Command.bdat n false) (v ++ b' ' ∷ show n)
    bdat_last :
        (v l : Bytes) (n : ℕ)
        → to_ascii_uppercase v ≡ codes "BDAT"
        → to_ascii_uppercase l ≡ codes "LAST"
        → n < u64_limit
        → Writes (Command.bdat n true) (v ++ b' ' ∷ (show n ++ b' ' ∷ l))
    auth :
        (v m : Bytes)
        → to_ascii_uppercase v ≡ codes "AUTH"
        → to_ascii_uppercase m ≡ codes "PLAIN"
        → Writes (Command.auth plain none) (v ++ b' ' ∷ m)
    auth_initial :
        (v m r : Bytes)
        → to_ascii_uppercase v ≡ codes "AUTH"
        → to_ascii_uppercase m ≡ codes "PLAIN"
        → Writes (Command.auth plain (some r)) (v ++ b' ' ∷ (m ++ b' ' ∷ r))

  no_blank :
      (v name : Bytes)
      → to_ascii_uppercase v ≡ name
      → split_once b' ' name ≡ none
      → split_once b' ' v ≡ none
  no_blank v name e h = split_once-to_ascii_uppercase v (rw e h)

  try_from-verb :
      (v name args : Bytes)
      → to_ascii_uppercase v ≡ name
      → split_once b' ' name ≡ none
      → is_utf8 (v ++ b' ' ∷ args) ≡ true
      → try_from nom mail (v ++ b' ' ∷ args) ≡ parse_verb nom mail name args
  try_from-verb v name args e h u =
      unfold try_from in rw (split_or-append b' ' v args (no_blank v name e h), u, e)

  try_from-bare :
      (v name : Bytes)
      → to_ascii_uppercase v ≡ name
      → split_once b' ' name ≡ none
      → is_utf8 v ≡ true
      → try_from nom mail v ≡ parse_verb nom mail name []
  try_from-bare v name e h u =
      unfold try_from in rw (split_or-none b' ' v (no_blank v name e h), u, e)

  module _ (law : Lawful nom) where
    mailbox_lem :
        (before t after : Bytes)
        → split_once b'<' before ≡ none
        → split_once b'>' t ≡ none
        → mailbox nom mail (before ++ b'<' ∷ (t ++ b'>' ∷ after)) ≡ from_str t
    unfolding mailbox
    mailbox_lem before t after h k =
        rw
          (
            law.take_until_byte b'<' (before ++ b'<' ∷ (t ++ b'>' ∷ after)),
            split_once-append b'<' before (t ++ b'>' ∷ after) h,
            law.map_res_runs,
            law.delimited_runs,
            law.tag_match (codes "<") (t ++ b'>' ∷ after),
            law.take_until_byte b'>' (t ++ b'>' ∷ after),
            split_once-append b'>' t after k,
            law.tag_match (codes ">") after,
          )
          (second_of (from_str t) after)

    -- Where the combinators of nom do what they document, every text that `Writes` relates to a
    -- command is parsed to that command, if it is UTF-8.
    pub try_from-Writes :
        {c : Command nom mail} {bs : Bytes}
        → Writes c bs
        → is_utf8 bs ≡ true
        → try_from nom mail bs ≡ ok c
    unfolding split_once parse_verb parse_bdat parse_auth
    try_from-Writes (helo v d e) u = try_from-verb v _ d e refl u
    try_from-Writes (ehlo v d e) u = try_from-verb v _ d e refl u
    try_from-Writes (mail_from v before t after e h k a) u =
        try_from-verb v _ _ e refl u ∙ rw (mailbox_lem before t after h k, a)
    try_from-Writes (rcpt_to v before t after e h k a) u =
        try_from-verb v _ _ e refl u ∙ rw (mailbox_lem before t after h k, a)
    try_from-Writes (data_ v e) u = try_from-bare v _ e refl u
    try_from-Writes (rset v e) u = try_from-bare v _ e refl u
    try_from-Writes (noop v e) u = try_from-bare v _ e refl u
    try_from-Writes (quit v e) u = try_from-bare v _ e refl u
    try_from-Writes (starttls v e) u = try_from-bare v _ e refl u
    try_from-Writes (bdat v n e h) u =
        try_from-verb v _ _ e refl u
        ∙ rw (splitn_two-none (show n) (split_once-show n), parse_uint-show u64_limit n h)
    try_from-Writes (bdat_last v l n e k h) u =
        try_from-verb v _ _ e refl u
        ∙ rw (
          splitn_two-append (show n) l (split_once-show n),
          parse_uint-show u64_limit n h,
          is_last-last l k,
        )
    try_from-Writes (auth v m e k) u =
        try_from-verb v _ _ e refl u
        ∙ rw (splitn_two-none m (no_blank m _ k refl), mechanism_from_str-plain m k)
    try_from-Writes (auth_initial v m r e k) u =
        try_from-verb v _ _ e refl u
        ∙ rw (splitn_two-append m r (no_blank m _ k refl), mechanism_from_str-plain m k)
