-- ===== src/Imap/Command/Words.antt =====
-- The words at the front of a command: its name in any case, and UID before it.
use brev.Base.{
  ℕ, zero, suc, ◌≡◌, refl, true, false, [], ◌∷◌, ◌++◌, append-nil, take, drop, Bytes, codes, same,
  to_ascii_uppercase, split_or-append, split_or-none, split_once-to_ascii_uppercase,
}
use brev.Flags.{Bitflags}
use brev.Nom.{Nom}
use brev.Imap.Capability.{capability_flags}
use brev.Imap.MailboxStatus.{item_flags}
use brev.Imap.Command.{Command, ok}
use brev.Imap.Command.Parse.{
  parse_plain, parse_either, parse_command, is_uid_command, command_from_str,
}
use brev.Imap.Command.Names.{IsName}

take-to_ascii_uppercase :
    (n : ℕ) (s : Bytes) → to_ascii_uppercase (take n s) ≡ take n (to_ascii_uppercase s)
unfolding to_ascii_uppercase
take-to_ascii_uppercase zero s = refl
take-to_ascii_uppercase (suc n) [] = refl
take-to_ascii_uppercase (suc n) (c ∷ cs) = rw (take-to_ascii_uppercase n cs) refl

to_ascii_uppercase-append :
    (a b : Bytes) → to_ascii_uppercase (a ++ b) ≡ to_ascii_uppercase a ++ to_ascii_uppercase b
unfolding to_ascii_uppercase
to_ascii_uppercase-append [] b = refl
to_ascii_uppercase-append (c ∷ cs) b = rw (to_ascii_uppercase-append cs b) refl

module _ (caps : Bitflags capability_flags) (items : Bitflags item_flags) (nom : Nom) where
  abbrev C : Type 0
  C = Command caps items

  is_uid_command-IsName :
      {name : Bytes} (verb i : Bytes)
      → IsName caps items nom name
      → to_ascii_uppercase verb ≡ name
      → is_uid_command caps items nom (verb ++ i) ≡ false
  unfolding is_uid_command
  is_uid_command-IsName verb i n e =
      rw (take-to_ascii_uppercase 4 (verb ++ i), to_ascii_uppercase-append verb i, e)
        (n.not_uid (to_ascii_uppercase i))

  -- The name, and the arguments behind a blank.
  pub from_str-IsName :
      {name : Bytes} (verb i : Bytes) (c : C)
      → IsName caps items nom name
      → to_ascii_uppercase verb ≡ name
      → parse_plain caps items nom name i ≡ ok c
      → command_from_str caps items nom (verb ++ b' ' ∷ i) ≡ ok c
  unfolding command_from_str parse_command
  from_str-IsName verb i c n e h =
      let blank = split_once-to_ascii_uppercase verb (rw e n.no_blank) in
      rw (is_uid_command-IsName verb (b' ' ∷ i) n e, split_or-append b' ' verb i blank, e) h

  pub from_str-alone :
      {name : Bytes} (verb : Bytes) (c : C)
      → IsName caps items nom name
      → to_ascii_uppercase verb ≡ name
      → parse_plain caps items nom name [] ≡ ok c
      → command_from_str caps items nom verb ≡ ok c
  unfolding command_from_str parse_command
  from_str-alone verb c n e h =
      let blank = split_once-to_ascii_uppercase verb (rw e n.no_blank) in
      let not_uid : is_uid_command caps items nom verb ≡ false =
        rw (← append-nil verb) (is_uid_command-IsName verb [] n e) in
      rw (not_uid, split_or-none b' ' verb blank, e) h

  -- UID in any case, and the command behind a blank.
  drop-uid : (uid i : Bytes) → to_ascii_uppercase uid ≡ codes "UID" → drop 4 (uid ++ b' ' ∷ i) ≡ i
  unfolding to_ascii_uppercase
  drop-uid (a ∷ b ∷ c ∷ []) i e = refl
  drop-uid [] i e = cc
  drop-uid (a ∷ []) i e = cc
  drop-uid (a ∷ b ∷ []) i e = cc
  drop-uid (a ∷ b ∷ c ∷ d ∷ rest) i e = cc

  pub from_str-uid :
      (uid i : Bytes)
      → to_ascii_uppercase uid ≡ codes "UID"
      → command_from_str caps items nom (uid ++ b' ' ∷ i) ≡ parse_command caps items nom i true
  unfolding command_from_str is_uid_command same
  from_str-uid uid i e =
      rw
        (
          take-to_ascii_uppercase 4 (uid ++ b' ' ∷ i),
          to_ascii_uppercase-append uid (b' ' ∷ i),
          e,
          drop-uid uid i e,
        )
        (unfold to_ascii_uppercase in refl)

  pub uid-alone :
      {name : Bytes} (verb : Bytes) (c : C)
      → IsName caps items nom name
      → to_ascii_uppercase verb ≡ name
      → parse_either caps items nom name true [] ≡ ok c
      → parse_command caps items nom verb true ≡ ok c
  unfolding parse_command
  uid-alone verb c n e h =
      let blank = split_once-to_ascii_uppercase verb (rw e n.no_blank) in
      rw (split_or-none b' ' verb blank, e) h

  pub uid-IsName :
      {name : Bytes} (verb i : Bytes) (c : C)
      → IsName caps items nom name
      → to_ascii_uppercase verb ≡ name
      → parse_either caps items nom name true i ≡ ok c
      → parse_command caps items nom (verb ++ b' ' ∷ i) true ≡ ok c
  unfolding parse_command
  uid-IsName verb i c n e h =
      let blank = split_once-to_ascii_uppercase verb (rw e n.no_blank) in
      rw (split_or-append b' ' verb i blank, e) h
