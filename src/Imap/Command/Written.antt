-- ===== src/Imap/Command/Written.antt =====
-- The arguments of commands that are strings, between quotation marks or bare.
use brev.Base.{
  ◌≡◌, refl, ◌≢◌, true, false, some, none, [], ◌∷◌, ◌++◌, All, not, Bytes, same, Bool, ℕ,
  append-nil, arith, Option,
}
use brev.Auth.{WhichMechanism, mechanism_from_str}
use brev.Flags.{Bitflags}
use brev.Nom.{Nom, Lawful, one_of, is_space, span, starts}
use brev.Nom.Span.{Stops, span-append, nonempty-some}
use brev.Imap.Capability.{capability_flags}
use brev.Imap.MailboxStatus.{item_flags}
use brev.Imap.Command.{Command}
use brev.Imap.Command.Args.{
  parse_dquote_str, parse_str, string_arg, one_arg, two_args, mechanism_arg, option_arg,
  authenticate_args,
}
use brev.Imap.Command.Quoted.{IsText, quote, parse_dquote_str-quote}

-- Neither a blank, a tab nor a line break.
abbrev pub unblank : ℕ → Bool
unblank c = not (one_of (b' ' ∷ b'\t' ∷ b'\r' ∷ b'\n' ∷ []) c)

-- A word that can stand bare.
pub record IsWord (s : Bytes) : Type 0 where
  pub no_blank : All (λ c. unblank c ≡ true) s
  pub not_quoted : starts b'"' s ≡ false
  pub some_left : s ≢ []

-- What a client writes for a string.
pub data Argument : Bytes → Bytes → Type 0 where
  quoted : {s : Bytes} → IsText s → Argument s (quote s)
  word : {s : Bytes} → IsWord s → Argument s s

-- What a client writes for an argument that may be left out.
pub data Optionally : Option Bytes → Bytes → Type 0 where
  left_out : Optionally none []
  given : {s text : Bytes} → Argument s text → Optionally (some s) (b' ' ∷ text)

unblank-is_space : (c : ℕ) → unblank c ≡ true → is_space c ≡ false
unblank-is_space c h = ground arith

module _ (caps : Bitflags capability_flags) (items : Bitflags item_flags) (nom : Nom)
    (law : Lawful nom) where
  span-Argument :
      (s text rest : Bytes) → Argument s text → span is_space (text ++ rest) ≡ (text ++ rest, [])
  span-Argument s text rest (quoted h) = refl
  span-Argument [] text rest (word h) = absurd (h.some_left refl)
  span-Argument (c ∷ cs) text rest (word h) = rw (unblank-is_space c (h.no_blank.0)) refl

  not_quoted-none : (s rest : Bytes) → IsWord s → parse_dquote_str caps items nom (s ++ rest) ≡ none
  unfolding parse_dquote_str same
  not_quoted-none [] rest h = absurd (h.some_left refl)
  not_quoted-none (c ∷ cs) rest h =
      let differs : nom.tag (b'"' ∷ []) (c ∷ (cs ++ rest)) ≡ none =
        law.tag_differs (b'"' ∷ []) (c ∷ (cs ++ rest)) (rw h.not_quoted) in
      rw differs refl

  parse_str-Argument :
      (s text rest : Bytes)
      → Argument s text
      → Stops unblank rest
      → parse_str caps items nom (text ++ rest) ≡ some (rest, s)
  unfolding parse_str
  parse_str-Argument s text rest (quoted h) t =
      rw (law.alt_runs, law.map_runs, parse_dquote_str-quote caps items nom law s rest h) refl
  parse_str-Argument s text rest (word h) t =
      rw
        (
          law.alt_runs,
          law.map_runs,
          not_quoted-none s rest h,
          law.map_runs,
          law.is_not_runs,
          span-append unblank s rest h.no_blank t,
          nonempty-some rest s h.some_left,
        )
        refl

  -- At once, and behind a blank.
  pub string_arg-Argument :
      (s text rest : Bytes)
      → Argument s text
      → Stops unblank rest
      → string_arg caps items nom (text ++ rest) ≡ some (rest, s)
  unfolding string_arg
  string_arg-Argument s text rest a t =
      rw
        (
          law.space0_runs,
          span-Argument s text rest a,
          law.map_runs,
          parse_str-Argument s text rest a t,
        )
        refl

  string_arg-blank :
      (s text : Bytes) → Argument s text → string_arg caps items nom (b' ' ∷ text) ≡ some ([], s)
  unfolding string_arg
  string_arg-blank s text a =
      let spaces : span is_space text ≡ (text, []) =
        rw (← append-nil text) (span-Argument s text [] a) in
      let read : parse_str caps items nom text ≡ some ([], s) =
        rw (← append-nil text) (parse_str-Argument s text [] a tt) in
      rw (law.space0_runs, spaces, law.map_runs, read) refl

  pub one_arg-Argument :
      (make : Bytes → Command caps items) (a text : Bytes)
      → Argument a text
      → one_arg caps items nom make text ≡ some ([], make a)
  one_arg-Argument make a text h =
      let e : string_arg caps items nom text ≡ some ([], a) =
        rw (← append-nil text) (string_arg-Argument a text [] h tt) in
      rw e refl

  pub two_args-Argument :
      (make : Bytes → Bytes → Command caps items) (a b text text' : Bytes)
      → Argument a text
      → Argument b text'
      → two_args caps items nom make (text ++ b' ' ∷ text') ≡ some ([], make a b)
  two_args-Argument make a b text text' h k =
      rw (string_arg-Argument a text (b' ' ∷ text') h refl, string_arg-blank b text' k) refl

  mechanism_arg-Argument :
      (m : WhichMechanism) (s text rest : Bytes)
      → Argument s text
      → mechanism_from_str s ≡ some m
      → Stops unblank rest
      → mechanism_arg caps items nom (text ++ rest) ≡ some (rest, m)
  unfolding mechanism_arg
  mechanism_arg-Argument m s text rest a e t =
      rw
        (
          law.space0_runs,
          span-Argument s text rest a,
          law.map_res_runs,
          parse_str-Argument s text rest a t,
          e,
        )
        refl

  Stops-Optionally : (r : Option Bytes) (text : Bytes) → Optionally r text → Stops unblank text
  Stops-Optionally r text left_out = tt
  Stops-Optionally r text (given a) = refl

  option_arg-Optionally :
      (r : Option Bytes) (text : Bytes)
      → Optionally r text
      → option_arg caps items nom Bytes (string_arg caps items nom) text ≡ some ([], r)
  unfolding option_arg
  option_arg-Optionally r text left_out =
      let nothing : string_arg caps items nom [] ≡ none =
        unfold string_arg in
        unfold parse_str in
        unfold parse_dquote_str in
        unfold same in
        rw
          (
            law.space0_runs,
            law.map_runs,
            law.alt_runs,
            law.map_runs,
            law.tag_differs (b'"' ∷ []) [] refl,
            law.map_runs,
            law.is_not_runs,
          )
          refl in
      rw (law.space0_runs, law.opt_runs, nothing) refl
  option_arg-Optionally r text (given {s} {text = written} a) =
      let spaces : span is_space written ≡ (written, []) =
        rw (← append-nil written) (span-Argument s written [] a) in
      let read : string_arg caps items nom written ≡ some ([], s) =
        rw (← append-nil written) (string_arg-Argument s written [] a tt) in
      rw (law.space0_runs, spaces, law.opt_runs, read) refl

  pub authenticate_args-Argument :
      (m : WhichMechanism) (s text : Bytes) (r : Option Bytes) (more : Bytes)
      → Argument s text
      → mechanism_from_str s ≡ some m
      → Optionally r more
      → authenticate_args caps items nom (text ++ more) ≡ some ([], Command.authenticate m r)
  unfolding authenticate_args
  authenticate_args-Argument m s text r more a e o =
      rw
        (
          mechanism_arg-Argument m s text more a e (Stops-Optionally r more o),
          option_arg-Optionally r more o,
        )
        refl
