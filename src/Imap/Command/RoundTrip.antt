-- ===== src/Imap/Command/RoundTrip.antt =====
-- A command that a client writes is parsed back to the command, with its tag.
use brev.Base.{
  ◌≡◌, refl, ◌∙◌, All, Bool, Option, List, map, true, false, none, some, [], ◌∷◌, ◌++◌, Bytes,
  codes, to_ascii_uppercase, split_once, split_or-append,
}
use brev.Base.Utf8.{is_utf8}
use brev.Flags.{Bitflags, from_iter}
use brev.Nom.{Nom, Lawful}
use brev.Imap.Response.{Tag}
use brev.Imap.Capability.{Capability, capability_name, capability_flags}
use brev.Imap.MailboxStatus.{StatusItem, item_name, item_flags}
use brev.Imap.Command.{Command, ok, tagged}
use brev.Imap.Command.Args.{fetch_args}
use brev.Imap.Command.Parse.{command_from_str, on_kind, tagged_try_from}
use brev.Imap.Sequence.{Range, SequenceSet, set_to_string}
use brev.Imap.Sequence.RoundTrip.{IsWritten, parse_set-set_to_string}
use brev.Imap.Fetch.{FetchItems}
use brev.Imap.Fetch.RoundTrip.{AsksFor, parse_items-AsksFor, space1-AsksFor}
use brev.Imap.Command.Sets.{capability_words, item_words, enable_args-words, status_args-words}
use brev.Imap.Command.Names.{
  Bare, TakesOne, TakesTwo, TakesUid, parse_plain-Bare, parse_plain-TakesOne, parse_plain-TakesTwo,
  parse_plain-TakesUid, parse_either-TakesUid, parse_either-fetch, parse_plain-fetch, Bare-IsName,
  TakesOne-IsName, TakesTwo-IsName, TakesUid-IsName, fetch-IsName, parse_plain-authenticate,
  authenticate-IsName, parse_plain-enable, enable-IsName, parse_plain-status, status-IsName,
}
use brev.Imap.Command.Words.{from_str-IsName, from_str-alone, from_str-uid, uid-alone, uid-IsName}
use brev.Imap.Command.Written.{
  Argument, Optionally, one_arg-Argument, two_args-Argument, authenticate_args-Argument,
}
use brev.Auth.{WhichMechanism, mechanism_from_str}

module _ (caps : Bitflags capability_flags) (items : Bitflags item_flags) (nom : Nom)
    (law : Lawful nom) where
  abbrev C : Type 0
  C = Command caps items

  -- What a client writes for a command; the name may be in any case.
  pub data Writes : C → Bytes → Type 0 where
    bare :
        {c : C} {name : Bytes} (verb : Bytes)
        → Bare caps items nom c name
        → to_ascii_uppercase verb ≡ name
        → Writes c verb
    one :
        {make : Bytes → C} {name a text : Bytes} (verb : Bytes)
        → TakesOne caps items nom make name
        → to_ascii_uppercase verb ≡ name
        → Argument a text
        → Writes (make a) (verb ++ b' ' ∷ text)
    two :
        {make : Bytes → Bytes → C} {name a b text text' : Bytes} (verb : Bytes)
        → TakesTwo caps items nom make name
        → to_ascii_uppercase verb ≡ name
        → Argument a text
        → Argument b text'
        → Writes (make a b) (verb ++ b' ' ∷ (text ++ b' ' ∷ text'))
    authenticate :
        {m : WhichMechanism} {s text more : Bytes} {r : Option Bytes} (verb : Bytes)
        → to_ascii_uppercase verb ≡ codes "AUTHENTICATE"
        → Argument s text
        → mechanism_from_str s ≡ some m
        → Optionally r more
        → Writes (Command.authenticate m r) (verb ++ b' ' ∷ (text ++ more))
    enable :
        (verb : Bytes) (f : Capability) (fs : List Capability)
        → to_ascii_uppercase verb ≡ codes "ENABLE"
        → Writes
            (Command.enable (from_iter capability_flags caps (map capability_name (f ∷ fs))))
            (verb ++ b' ' ∷ capability_words f fs)
    status :
        {a text : Bytes} (verb : Bytes) (f : StatusItem) (fs : List StatusItem)
        → to_ascii_uppercase verb ≡ codes "STATUS"
        → Argument a text
        → Writes
            (Command.status a (from_iter item_flags items (map item_name (f ∷ fs))))
            (verb ++ b' ' ∷ (text ++ b' ' ∷ b'(' ∷ (item_words f fs ++ codes ")")))
    either :
        {make : Bool → C} {name : Bytes} (verb : Bytes)
        → TakesUid caps items nom make name
        → to_ascii_uppercase verb ≡ name
        → Writes (make false) verb
    uid_either :
        {make : Bool → C} {name : Bytes} (uid verb : Bytes)
        → TakesUid caps items nom make name
        → to_ascii_uppercase uid ≡ codes "UID"
        → to_ascii_uppercase verb ≡ name
        → Writes (make true) (uid ++ b' ' ∷ verb)
    fetch :
        {wanted : FetchItems} {text : Bytes} (verb : Bytes) (r : Range) (rs : SequenceSet)
        → to_ascii_uppercase verb ≡ codes "FETCH"
        → All IsWritten (r ∷ rs)
        → AsksFor wanted text
        → Writes
            (Command.fetch false (r ∷ rs) wanted)
            (verb ++ b' ' ∷ (set_to_string (r ∷ rs) ++ b' ' ∷ text))
    uid_fetch :
        {wanted : FetchItems} {text : Bytes} (uid verb : Bytes) (r : Range) (rs : SequenceSet)
        → to_ascii_uppercase uid ≡ codes "UID"
        → to_ascii_uppercase verb ≡ codes "FETCH"
        → All IsWritten (r ∷ rs)
        → AsksFor wanted text
        → Writes
            (Command.fetch true (r ∷ rs) wanted)
            (uid ++ b' ' ∷ (verb ++ b' ' ∷ (set_to_string (r ∷ rs) ++ b' ' ∷ text)))

  fetch_args-AsksFor :
      (is_uid : Bool) (r : Range) (rs : SequenceSet) (wanted : FetchItems) (text : Bytes)
      → All IsWritten (r ∷ rs)
      → AsksFor wanted text
      → fetch_args caps items nom is_uid (set_to_string (r ∷ rs) ++ b' ' ∷ text)
        ≡ some ([], Command.fetch is_uid (r ∷ rs) wanted)
  unfolding fetch_args
  fetch_args-AsksFor is_uid r rs wanted text w a =
      rw
        (
          parse_set-set_to_string nom law r rs (b' ' ∷ text) w
              (record { behind = record { digit = refl; other = refl }; comma = refl }),
          space1-AsksFor nom law wanted text a,
          parse_items-AsksFor nom law wanted text a,
        )
        refl

  command_from_str-Writes :
      (c : C) (text : Bytes) → Writes c text → command_from_str caps items nom text ≡ ok c
  command_from_str-Writes c text (bare verb b e) =
      from_str-alone caps items nom verb c (Bare-IsName caps items nom b) e
        (parse_plain-Bare caps items nom [] b)
  command_from_str-Writes c text (one verb t e h) =
      from_str-IsName caps items nom verb _ c (TakesOne-IsName caps items nom t) e
        (parse_plain-TakesOne caps items nom _ c t (one_arg-Argument caps items nom law _ _ _ h))
  command_from_str-Writes c text (two verb t e h k) =
      from_str-IsName caps items nom verb _ c (TakesTwo-IsName caps items nom t) e (
        parse_plain-TakesTwo caps items nom _ c t
          (two_args-Argument caps items nom law _ _ _ _ _ h k))
  command_from_str-Writes c text (authenticate verb e a k o) =
      from_str-IsName caps items nom verb _ c (authenticate-IsName caps items nom) e (
        parse_plain-authenticate caps items nom _ c
          (authenticate_args-Argument caps items nom law _ _ _ _ _ a k o))
  command_from_str-Writes c text (enable verb f fs e) =
      from_str-IsName caps items nom verb _ c (enable-IsName caps items nom) e
        (parse_plain-enable caps items nom _ c (enable_args-words caps items nom law f fs))
  command_from_str-Writes c text (status verb f fs e a) =
      from_str-IsName caps items nom verb _ c (status-IsName caps items nom) e
        (parse_plain-status caps items nom _ c (status_args-words caps items nom law _ _ f fs a))
  command_from_str-Writes c text (either verb t e) =
      from_str-alone caps items nom verb c (TakesUid-IsName caps items nom t) e
        (parse_plain-TakesUid caps items nom [] t)
  command_from_str-Writes c text (uid_either uid verb t u e) =
      from_str-uid caps items nom uid verb u
      ∙ uid-alone caps items nom verb c (TakesUid-IsName caps items nom t) e
          (parse_either-TakesUid caps items nom [] true t)
  command_from_str-Writes c text (fetch {wanted} {text = asked} verb r rs e w a) =
      from_str-IsName caps items nom verb _ c (fetch-IsName caps items nom) e
        (parse_plain-fetch caps items nom _ c (fetch_args-AsksFor false r rs wanted asked w a))
  command_from_str-Writes c text (uid_fetch {wanted} {text = asked} uid verb r rs u e w a) =
      from_str-uid caps items nom uid _ u
      ∙ uid-IsName caps items nom verb _ c (fetch-IsName caps items nom) e (
          parse_either-fetch caps items nom _ c true
            (fetch_args-AsksFor true r rs wanted asked w a))

  -- A line that a client writes for a command, behind a tag without blanks, is parsed back to that
  -- command with that tag: the name in any case, UID before it where the command takes it; each string
  -- as a word, without blanks, tabs and line breaks and not from a quotation mark on, or between
  -- quotation marks, of ASCII, with a backslash before each quotation mark and backslash of the string
  -- itself, and not empty; for AUTHENTICATE the name of a mechanism, and an initial response or none;
  -- for FETCH a set of ranges, each within 32 bits and none from `*` to `*`, and a macro or attributes
  -- between parentheses; for ENABLE and STATUS names of capabilities or of items, one at least and a
  -- blank between two, and the set is `from_iter` of the names. The line is valid UTF-8.
  pub tagged_try_from-Writes :
      (tag : Tag) (c : C) (text : Bytes)
      → Writes c text
      → split_once b' ' tag ≡ none
      → is_utf8 (tag ++ b' ' ∷ text) ≡ true
      → tagged_try_from caps items nom (tag ++ b' ' ∷ text)
        ≡ tagged (record { tag = tag; command = c })
  unfolding tagged_try_from on_kind
  tagged_try_from-Writes tag c text w h u =
      rw (split_or-append b' ' tag text h, u, command_from_str-Writes c text w) refl
