-- ===== src/Tests/Samples.antt =====
-- Concrete instances of what the program takes from other crates, and sample data.
use brev.Base.{
  ℕ, ◌+◌, ◌-◌, ◌≤◌, ◌<◌, ◌≡◌, refl, Bool, true, false, ◌||◌, Option, none, some, List, [], ◌∷◌,
  ◌++◌, arith, length, leb, if◌then◌else◌, ◌>>=◌, Bytes, codes, same, same_iff, split_once, ◌==◌,
  ==_self, ==_iff, take, crlf, map,
}
use brev.Io.{World, chunk, plain}
use brev.Flags
use brev.Flags.{Flags, Bitflags, keep}
use brev.Nom
use brev.Nom.{Nom, Parser, until, or_else, optional, head_is, one_of, span, nonempty, is_space}
use brev.Base.{suc, not}
use brev.Base.Decimal.{is_digit}
use brev.Tests.Combinators.{
  list0, list_within, list0-Lists, list_within-Lists, unescape_within, unescape_within-Escaped,
}
use brev.Smtp.Command.{EmailAddress}
use brev.Smtp.Data.{ReadBuf}
use brev.Smtp.Ehlo.{extensions, auths}
use brev.Smtp.Session.{Crates, Context, Session, session_on}

-- A buffer: what is filled, and the room left.
pub record Buffer : Type 0 where
  pub content : Bytes
  pub room : ℕ

unfoldable pub put : Bytes → Buffer → Option Buffer
put bs b =
    if leb (length bs) b.room
    then some (record { content = b.content ++ bs; room = b.room - length bs })
    else none

pub put_fits :
    (bs : Bytes) (b : Buffer)
    → length bs ≤ b.room
    → (b' : Buffer) × (put bs b ≡ some b')
      × (b'.content ≡ b.content ++ bs)
      × (b'.room + length bs ≡ b.room)
unfolding put
put_fits bs b h = (
  record { content = b.content ++ bs; room = b.room - length bs },
  ground arith,
  refl,
  omega arith,
)

pub put_panics : (bs : Bytes) (b : Buffer) → b.room < length bs → put bs b ≡ none
unfolding put
put_panics bs b h = ground arith

abbrev pub read_buf : ReadBuf
read_buf = record {
  Buf = Buffer;
  filled = λ b. b.content;
  remaining = λ b. b.room;
  put_slice = put;
  put_slice_fits = put_fits;
  put_slice_panics = put_panics;
}

-- `t` is stripped off the start of the input.
abbrev pub strip : Bytes → Bytes → Option Bytes
strip [] i = some i
strip (t ∷ ts) [] = none
strip (t ∷ ts) (c ∷ cs) = if t == c then strip ts cs else none

pub strip-append : (t rest : Bytes) → strip t (t ++ rest) ≡ some rest
strip-append [] rest = refl
strip-append (t ∷ ts) rest = rw (==_self t) (strip-append ts rest)

strip-differs : (t i : Bytes) → same (take (length t) i) t ≡ false → strip t i ≡ none
unfolding same
strip-differs [] i h = cc
strip-differs (t ∷ ts) [] h = refl
strip-differs (t ∷ ts) (c ∷ cs) h = ground (arith, strip-differs ts cs, ==_iff t c, ==_iff c t)

abbrev pub before_pattern : Bytes → Bytes → Option (Bytes × Bytes)
before_pattern p [] = elim (strip p []) [ none ↦ none | some _ ↦ some ([], []) ]
before_pattern p (c ∷ cs) =
    let rest = before_pattern p cs in
    elim (strip p (c ∷ cs)) [
      | some _ ↦ some (c ∷ cs, [])
      | none ↦ elim rest [ none ↦ none | some (i, a) ↦ some (i, c ∷ a) ]
    ]

pub before_pattern-byte : (d : ℕ) (i : Bytes) → before_pattern (d ∷ []) i ≡ until d (split_once d i)
unfolding split_once
before_pattern-byte d [] = refl
before_pattern-byte d (c ∷ cs) = ground (arith, before_pattern-byte d cs)

abbrev pub none_of_byte : Bytes → Parser Bytes
none_of_byte set [] = none
none_of_byte set (c ∷ rest) = if one_of set c then none else some (rest, c ∷ [])

abbrev pub nom : Nom
nom = record {
  tag = λ t i. strip t i >>= λ rest. some (rest, t);
  take_until = before_pattern;
  delimited = λ A B C p q s i. p i >>= λ a. q a.0 >>= λ b. s b.0 >>= λ c. some (c.0, b.1);
  map_res = λ A B p f i. p i >>= λ a. f a.1 >>= λ b. some (a.0, b);
  map = λ A B p f i. p i >>= λ a. some (a.0, f a.1);
  alt = λ A p q i. or_else (p i) (q i);
  opt = λ A p i. optional i (p i);
  char = head_is;
  none_of = none_of_byte;
  take_while = λ p i. some (span p i);
  take_while1 = λ p i. nonempty (span p i);
  space0 = λ i. some (span is_space i);
  space1 = λ i. nonempty (span is_space i);
  digit1 = λ i. nonempty (span is_digit i);
  is_not = λ set i. nonempty (span (λ c. not (one_of set c)) i);
  separated_list0 = λ A B separator item. list0 separator item;
  separated_list1 = λ A B separator item i. list_within separator item (suc (length i)) i;
  escaped_transform =
      λ normal control transform i. unescape_within normal control transform (suc (length i)) i;
}

pub nom-Lawful : Nom.Lawful nom
nom-Lawful = record {
  tag_match = λ t rest. rw (strip-append t rest) refl;
  tag_differs = λ t i h. rw (strip-differs t i h) refl;
  take_until_byte = before_pattern-byte;
  delimited_runs = λ A B C p q s i. refl;
  map_res_runs = λ A B p f i. refl;
  map_runs = λ A B p f i. refl;
  alt_runs = λ A p q i. refl;
  opt_runs = λ A p i. refl;
  char_runs = λ c i. refl;
  none_of_end = λ set. refl;
  none_of_ascii = λ set c rest h. refl;
  take_while_runs = λ p i. refl;
  take_while1_runs = λ p i. refl;
  space0_runs = λ i. refl;
  space1_runs = λ i. refl;
  digit1_runs = λ i. refl;
  is_not_runs = λ set i. refl;
  separated_list0_none = λ A B separator item i e. rw (e, list0) refl;
  separated_list0_lists = λ A B separator item i rest items l. list0-Lists separator item l;
  separated_list1_lists = λ A B separator item i rest items l.
      list_within-Lists separator item (suc (length i)) l (omega arith);
  escaped_transform_runs = λ normal control transform i rest out e.
      unescape_within-Escaped normal control transform (suc (length i)) e (omega arith);
}

abbrev pub address_from : Bytes → Option Bytes
address_from [] = none
address_from (c ∷ cs) = some (c ∷ cs)

abbrev pub mail : EmailAddress
mail = record { Address = Bytes; from_str = address_from; equal = same; equal_iff = same_iff }

abbrev pub bitflags : (flags : Flags) → Bitflags flags
bitflags flags = record {
  Set = flags.Flag → Bool;
  empty = λ f. false;
  all = λ f. true;
  flag = flags.equal;
  union = λ s t f. s f || t f;
  iter = λ s. keep s flags.declared;
  is_empty = λ s. leb (length (keep s flags.declared)) 0;
}

pub bitflags-Lawful : (flags : Flags) → Flags.Lawful flags (bitflags flags)
bitflags-Lawful flags = record {
  contains = λ s f. s f;
  contains-empty = λ f. refl;
  contains-all = λ f. refl;
  contains-flag = λ f g. refl;
  contains-union = λ s t f. refl;
  iter_declared = λ s. refl;
}

abbrev pub crates : Crates
crates = record { nom = nom; mail = mail; ext = bitflags extensions; auth_flags = bitflags auths }

abbrev pub context : Context
context = record { hostname = codes "brev"; tls = false }

-- A client that says these lines one by one.
abbrev pub says : List Bytes → World
says ls = record {
  incoming = map (λ l. chunk (l ++ crlf) false) ls;
  buffered = false;
  answers = [];
  trace = [];
  stream = plain;
}

-- A session that begins on the connection.
abbrev pub begins : World → Session crates
begins w = session_on crates w context
