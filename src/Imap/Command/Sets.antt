-- ===== src/Imap/Command/Sets.antt =====
-- The arguments of ENABLE and STATUS that are sets, written as names between blanks.
use brev.Base.{
  ◌≡◌, refl, ◌==◌, none, some, List, [], ◌∷◌, ◌++◌, All, not, map, append_assoc, Bytes, split_once,
  codes, Bool, ℕ,
}
use brev.Flags.{Bitflags, from_iter, blank_names}
use brev.Flags.RoundTrip.{split-blank_names}
use brev.Nom.{Nom, Lawful, is_space, span}
use brev.Imap.Capability.{
  Capability, imap4, imap4rev1, imap4rev2, starttls, auth_plain, logindisabled, sasl_ir,
  capability_name, capability_flags,
}
use brev.Imap.MailboxStatus.{
  StatusItem, messages, uidnext, uidvalidity, unseen, deleted, size, item_name, item_flags,
}
use brev.Imap.Command.{Command}
use brev.Imap.Command.Args.{capabilities_arg, items_arg, enable_args, status_args}
use brev.Imap.Command.Written.{Argument, string_arg-Argument}

-- Names, a blank between two.
abbrev pub capability_words : Capability → List Capability → Bytes
capability_words f fs = capability_name f ++ blank_names (map capability_name fs)

abbrev pub item_words : StatusItem → List StatusItem → Bytes
item_words f fs = item_name f ++ blank_names (map item_name fs)

capability_name-no_blank :
    (fs : List Capability) → All (λ v. split_once b' ' v ≡ none) (map capability_name fs)
unfolding split_once
capability_name-no_blank [] = tt
capability_name-no_blank (imap4 ∷ fs) = (refl, capability_name-no_blank fs)
capability_name-no_blank (imap4rev1 ∷ fs) = (refl, capability_name-no_blank fs)
capability_name-no_blank (imap4rev2 ∷ fs) = (refl, capability_name-no_blank fs)
capability_name-no_blank (starttls ∷ fs) = (refl, capability_name-no_blank fs)
capability_name-no_blank (auth_plain ∷ fs) = (refl, capability_name-no_blank fs)
capability_name-no_blank (logindisabled ∷ fs) = (refl, capability_name-no_blank fs)
capability_name-no_blank (sasl_ir ∷ fs) = (refl, capability_name-no_blank fs)

item_name-no_blank : (fs : List StatusItem) → All (λ v. split_once b' ' v ≡ none) (map item_name fs)
unfolding split_once
item_name-no_blank [] = tt
item_name-no_blank (messages ∷ fs) = (refl, item_name-no_blank fs)
item_name-no_blank (uidnext ∷ fs) = (refl, item_name-no_blank fs)
item_name-no_blank (uidvalidity ∷ fs) = (refl, item_name-no_blank fs)
item_name-no_blank (unseen ∷ fs) = (refl, item_name-no_blank fs)
item_name-no_blank (deleted ∷ fs) = (refl, item_name-no_blank fs)
item_name-no_blank (size ∷ fs) = (refl, item_name-no_blank fs)

-- A name does not begin with a blank.
span-capability_words :
    (f : Capability) (more : Bytes)
    → span is_space (capability_name f ++ more) ≡ (capability_name f ++ more, [])
span-capability_words imap4 more = refl
span-capability_words imap4rev1 more = refl
span-capability_words imap4rev2 more = refl
span-capability_words starttls more = refl
span-capability_words auth_plain more = refl
span-capability_words logindisabled more = refl
span-capability_words sasl_ir more = refl

-- Not the closing parenthesis.
abbrev inside : ℕ → Bool
inside c = not (c == b')')

span-item :
    (f : StatusItem) (more : Bytes)
    → span inside (item_name f ++ more)
      ≡ ((span inside more).0, item_name f ++ (span inside more).1)
span-item messages more = refl
span-item uidnext more = refl
span-item uidvalidity more = refl
span-item unseen more = refl
span-item deleted more = refl
span-item size more = refl

-- The names are read up to the closing parenthesis.
span-onto :
    (f : StatusItem) (more : Bytes)
    → span inside (more ++ codes ")") ≡ (codes ")", more)
    → span inside ((item_name f ++ more) ++ codes ")") ≡ (codes ")", item_name f ++ more)
span-onto f more h =
    rw (append_assoc (item_name f) more (codes ")"), span-item f (more ++ codes ")"), h) refl

span-item_words :
    (fs : List StatusItem)
    → span inside (blank_names (map item_name fs) ++ codes ")")
      ≡ (codes ")", blank_names (map item_name fs))
unfolding blank_names
span-item_words [] = refl
span-item_words (f ∷ fs) =
    rw (span-onto f (blank_names (map item_name fs)) (span-item_words fs)) refl

module _ (caps : Bitflags capability_flags) (items : Bitflags item_flags) (nom : Nom)
    (law : Lawful nom) where
  pub enable_args-words :
      (f : Capability) (fs : List Capability)
      → enable_args caps items nom (capability_words f fs)
        ≡ some ([], Command.enable (from_iter capability_flags caps (map capability_name (f ∷ fs))))
  unfolding enable_args capabilities_arg
  enable_args-words f fs =
      rw
        (
          law.space0_runs,
          span-capability_words f (blank_names (map capability_name fs)),
          split-blank_names (capability_name f) (map capability_name fs)
              (capability_name-no_blank (f ∷ fs)),
        )
        refl

  items_arg-words :
      (f : StatusItem) (fs : List StatusItem)
      → items_arg caps items nom (b' ' ∷ b'(' ∷ (item_words f fs ++ codes ")"))
        ≡ some ([], from_iter item_flags items (map item_name (f ∷ fs)))
  unfolding items_arg
  items_arg-words f fs =
      rw
        (
          law.space0_runs,
          law.delimited_runs,
          law.tag_match (codes "(") (item_words f fs ++ codes ")"),
          law.take_while_runs,
          span-onto f (blank_names (map item_name fs)) (span-item_words fs),
          law.tag_match (codes ")") [],
          split-blank_names (item_name f) (map item_name fs) (item_name-no_blank (f ∷ fs)),
        )
        refl

  pub status_args-words :
      (mailbox text : Bytes) (f : StatusItem) (fs : List StatusItem)
      → Argument mailbox text
      → status_args caps items nom (text ++ b' ' ∷ b'(' ∷ (item_words f fs ++ codes ")"))
        ≡ some ([], Command.status mailbox (from_iter item_flags items (map item_name (f ∷ fs))))
  unfolding status_args
  status_args-words mailbox text f fs a =
      rw
        (
          string_arg-Argument caps items nom law mailbox text
              (b' ' ∷ b'(' ∷ (item_words f fs ++ codes ")")) a refl,
          items_arg-words f fs,
        )
        refl
