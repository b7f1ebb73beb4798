-- ===== src/Nom.antt =====
-- The parser combinators of the crate `nom`, which is not part of the repository: what the program
-- takes of it is the parameter `Nom`, with its documented laws in `Lawful`.
pub mod Span
use brev.Base.{
  ℕ, ◌<◌, ◌≡◌, ◌≢◌, Bool, true, false, not, ◌||◌, Option, none, some, List, [], ◌∷◌, ◌++◌, length,
  ◌==◌, if◌then◌else◌, Bytes, split_once, ◌>>=◌, same, take,
}
use brev.Base.Decimal.{is_digit}

-- A parser gives the rest of the input and its result, or fails. (The program never tells apart the
-- errors of a parser.)
abbrev pub Parser : Type 0 → Type 0
Parser A = Bytes → Option (Bytes × A)

pub record Nom : Type 1 where
  pub tag : Bytes → Parser Bytes
  pub take_until : Bytes → Parser Bytes
  pub delimited : (A B C : Type 0) → Parser A → Parser B → Parser C → Parser B
  pub map_res : (A B : Type 0) → Parser A → (A → Option B) → Parser B
  pub map : (A B : Type 0) → Parser A → (A → B) → Parser B
  pub alt : (A : Type 0) → Parser A → Parser A → Parser A
  pub opt : (A : Type 0) → Parser A → Parser (Option A)
  -- A character is given by its byte where it is ASCII; `none_of` gives the bytes of its character.
  pub char : ℕ → Parser ℕ
  pub none_of : Bytes → Parser Bytes
  pub take_while : (ℕ → Bool) → Parser Bytes
  pub take_while1 : (ℕ → Bool) → Parser Bytes
  pub space0 : Parser Bytes
  pub space1 : Parser Bytes
  pub digit1 : Parser Bytes
  pub is_not : Bytes → Parser Bytes
  pub separated_list0 : (A B : Type 0) → Parser B → Parser A → Parser (List A)
  pub separated_list1 : (A B : Type 0) → Parser B → Parser A → Parser (List A)
  pub escaped_transform : Parser Bytes → ℕ → Parser Bytes → Parser Bytes

-- The two results of a `split_once`, as `take_until` gives them: the delimiter stays in the rest.
abbrev pub until : ℕ → Option (Bytes × Bytes) → Option (Bytes × Bytes)
until d none = none
until d (some (a, b)) = some (d ∷ b, a)

-- The longest prefix whose bytes pass the test, and the rest, in a parser's order.
abbrev pub span : (ℕ → Bool) → Bytes → Bytes × Bytes
span p [] = ([], [])
span p (c ∷ cs) = if p c then ((span p cs).0, c ∷ (span p cs).1) else (c ∷ cs, [])

abbrev pub nonempty : Bytes × Bytes → Option (Bytes × Bytes)
nonempty (rest, []) = none
nonempty (rest, c ∷ cs) = some (rest, c ∷ cs)

abbrev pub one_of : Bytes → ℕ → Bool
one_of [] c = false
one_of (d ∷ ds) c = c == d || one_of ds c

abbrev pub is_space : ℕ → Bool
is_space c = c == b' ' || c == b'\t'

abbrev pub or_else : {A : Type 0} → Option A → Option A → Option A
or_else none o = o
or_else (some a) o = some a

abbrev pub optional : {A : Type 0} → Bytes → Option (Bytes × A) → Option (Bytes × Option A)
optional i none = some (i, none)
optional i (some (rest, a)) = some (rest, some a)

abbrev pub head_is : ℕ → Bytes → Option (Bytes × ℕ)
head_is c [] = none
head_is c (d ∷ rest) = if d == c then some (rest, c) else none

-- `i` is read as a list up to `rest`, where no separator follows.
pub data Lists {A B : Type 0} (separator : Parser B) (item : Parser A) (rest : Bytes)
    : Bytes → List A → Type 0 where
  last :
      {i : Bytes} {a : A}
      → item i ≡ some (rest, a)
      → separator rest ≡ none
      → Lists separator item rest i (a ∷ [])
  next :
      {i r r' : Bytes} {a : A} {b : B} {more : List A}
      → item i ≡ some (r, a)
      → separator r ≡ some (r', b)
      → length r' < length r
      → length r' < length i
      → Lists separator item rest r' more
      → Lists separator item rest i (a ∷ more)

-- One character of an escaped text: a normal one, or an escaped one behind the control byte.
pub data Unescapes (normal : Parser Bytes) (control : ℕ) (transform : Parser Bytes)
    : Bytes → Bytes → Bytes → Type 0 where
  plain :
      {i r out : Bytes}
      → normal i ≡ some (r, out)
      → length r < length i
      → Unescapes normal control transform i out r
  escaped :
      {i r out : Bytes}
      → normal (control ∷ i) ≡ none
      → transform i ≡ some (r, out)
      → length r < length i
      → Unescapes normal control transform (control ∷ i) out r

abbrev pub starts : ℕ → Bytes → Bool
starts c [] = false
starts c (d ∷ rest) = d == c

-- An escaped text up to `rest`, which begins with neither.
pub data Escaped (normal : Parser Bytes) (control : ℕ) (transform : Parser Bytes) (rest : Bytes)
    : Bytes → Bytes → Type 0 where
  ends :
      {i out : Bytes}
      → Unescapes normal control transform i out rest
      → normal rest ≡ none
      → starts control rest ≡ false
      → Escaped normal control transform rest i out
  goes :
      {i r out more : Bytes}
      → Unescapes normal control transform i out r
      → Escaped normal control transform rest r more
      → Escaped normal control transform rest i (out ++ more)

pub record Lawful (nom : Nom) : Type 1 where
  -- "Recognizes a pattern": it matches its argument at the start of the input.
  pub tag_match : (t rest : Bytes) → nom.tag t (t ++ rest) ≡ some (rest, t)
  -- "It will return Err if the input doesn't match."
  pub tag_differs : (t i : Bytes) → same (take (length t) i) t ≡ false → nom.tag t i ≡ none
  -- "Returns the input slice up to the first occurrence of the pattern."
  pub take_until_byte : (d : ℕ) (i : Bytes) → nom.take_until (d ∷ []) i ≡ until d (split_once d i)
  -- "Matches an object from the first parser and discards it, then gets an object from the second
  -- parser, and finally matches an object from the third parser and discards it."
  pub delimited_runs :
      (A B C : Type 0) (p : Parser A) (q : Parser B) (s : Parser C) (i : Bytes)
      → nom.delimited A B C p q s i ≡ (p i >>= λ a. q a.0 >>= λ b. s b.0 >>= λ c. some (c.0, b.1))
  -- "Applies a function returning a Result over the result of a parser."
  pub map_res_runs :
      (A B : Type 0) (p : Parser A) (f : A → Option B) (i : Bytes)
      → nom.map_res A B p f i ≡ (p i >>= λ a. f a.1 >>= λ b. some (a.0, b))
  -- "Maps a function on the result of a parser."
  pub map_runs :
      (A B : Type 0) (p : Parser A) (f : A → B) (i : Bytes)
      → nom.map A B p f i ≡ (p i >>= λ a. some (a.0, f a.1))
  -- "Tests a list of parsers one by one until one succeeds."
  pub alt_runs : (A : Type 0) (p q : Parser A) (i : Bytes) → nom.alt A p q i ≡ or_else (p i) (q i)
  -- "Optional parser, will return None on Error."
  pub opt_runs : (A : Type 0) (p : Parser A) (i : Bytes) → nom.opt A p i ≡ optional i (p i)
  -- "Recognizes one character."
  pub char_runs : (c : ℕ) (i : Bytes) → nom.char c i ≡ head_is c i
  -- "Recognizes a character that is not in the provided characters", here for ASCII.
  pub none_of_end : (set : Bytes) → nom.none_of set [] ≡ none
  pub none_of_ascii :
      (set : Bytes) (c : ℕ) (rest : Bytes)
      → c < 128
      → nom.none_of set (c ∷ rest) ≡ (if one_of set c then none else some (rest, c ∷ []))
  -- "Returns the longest input slice (if any) that matches the predicate"; with a 1, "returns an
  -- Err if the pattern wasn't met".
  pub take_while_runs : (p : ℕ → Bool) (i : Bytes) → nom.take_while p i ≡ some (span p i)
  pub take_while1_runs : (p : ℕ → Bool) (i : Bytes) → nom.take_while1 p i ≡ nonempty (span p i)
  -- "Recognizes zero or more spaces and tabs", "one or more".
  pub space0_runs : (i : Bytes) → nom.space0 i ≡ some (span is_space i)
  pub space1_runs : (i : Bytes) → nom.space1 i ≡ nonempty (span is_space i)
  -- "Recognizes one or more ASCII numerical characters: 0-9."
  pub digit1_runs : (i : Bytes) → nom.digit1 i ≡ nonempty (span is_digit i)
  -- "Parse till certain characters are met", one character at least.
  pub is_not_runs : (set i : Bytes) → nom.is_not set i ≡ nonempty (span (λ c. not (one_of set c)) i)
  -- "Alternates between two parsers to produce a list of elements"; with a 1, "fails if the element
  -- parser does not produce at least one element".
  pub separated_list0_none :
      (A B : Type 0) (separator : Parser B) (item : Parser A) (i : Bytes)
      → item i ≡ none
      → nom.separated_list0 A B separator item i ≡ some (i, [])
  pub separated_list0_lists :
      (A B : Type 0) (separator : Parser B) (item : Parser A) (i rest : Bytes) (items : List A)
      → Lists separator item rest i items
      → nom.separated_list0 A B separator item i ≡ some (rest, items)
  pub separated_list1_lists :
      (A B : Type 0) (separator : Parser B) (item : Parser A) (i rest : Bytes) (items : List A)
      → Lists separator item rest i items
      → nom.separated_list1 A B separator item i ≡ some (rest, items)
  -- "Matches a byte string with escaped characters": the normal ones as they are, those behind the
  -- control character as the third argument transforms them.
  pub escaped_transform_runs :
      (normal : Parser Bytes) (control : ℕ) (transform : Parser Bytes) (i rest out : Bytes)
      → Escaped normal control transform rest i out
      → nom.escaped_transform normal control transform i ≡ some (rest, out)
