-- ===== src/Flags.antt =====
-- crates/util/src/lib.rs: the macro `flags!`, which gives a set of flags its names. The sets are
-- those of the crate `bitflags`, which is not part of the repository: they are the parameter
-- `Bitflags`, with the documented laws in `Lawful`.
pub mod RoundTrip
use brev.Base.{
  ◌≡◌, ◌↔◌, Bool, true, false, ◌||◌, List, [], ◌∷◌, ◌++◌, map, Bytes, same, if◌then◌else◌,
}

-- What one use of the macro declares: the flags in their order, each with its name.
pub record Flags : Type 1 where
  pub Flag : Type 0
  pub declared : List Flag
  pub serialized : Flag → Bytes
  pub equal : Flag → Flag → Bool
  pub equal_iff : (a b : Flag) → (equal a b ≡ true) ↔ (a ≡ b)

pub record Bitflags (flags : Flags) : Type 1 where
  pub Set : Type 0
  pub empty : Set
  pub all : Set
  pub flag : flags.Flag → Set
  pub union : Set → Set → Set
  pub iter : Set → List flags.Flag
  pub is_empty : Set → Bool

-- `write!(f, " {name}")` for each name.
unfoldable pub blank_names : List Bytes → Bytes
blank_names [] = []
blank_names (n ∷ ns) = b' ' ∷ (n ++ blank_names ns)

-- The flags of the list for which the test holds.
abbrev pub keep : {A : Type 0} → (A → Bool) → List A → List A
keep p [] = []
keep p (x ∷ xs) = if p x then x ∷ keep p xs else keep p xs

pub record Lawful (flags : Flags) (b : Bitflags flags) : Type 1 where
  pub contains : b.Set → flags.Flag → Bool
  pub contains-empty : (f : flags.Flag) → contains b.empty f ≡ false
  pub contains-all : (f : flags.Flag) → contains b.all f ≡ true
  pub contains-flag : (f g : flags.Flag) → contains (b.flag f) g ≡ flags.equal f g
  pub contains-union :
      (s t : b.Set) (f : flags.Flag) → contains (b.union s t) f ≡ (contains s f || contains t f)
  -- "Yield a set of contained flags values", in the order of their declaration.
  pub iter_declared : (s : b.Set) → b.iter s ≡ keep (contains s) flags.declared

module _ (flags : Flags) (b : Bitflags flags) where
  open flags use {Flag, declared, serialized}
  open b use {Set, empty, flag, union, iter}

  -- `names`.
  unfoldable pub names : Set → List Bytes
  names s = map serialized (iter s)

  -- The `match` on a name, arm by arm.
  unfoldable pub named_in : List Flag → Bytes → Set
  named_in [] name = empty
  named_in (f ∷ fs) name =
      let rest = named_in fs name in if same name (serialized f) then flag f else rest

  -- `from_iter`; unknown names add nothing.
  unfoldable pub from_iter_onto : Set → List Bytes → Set
  unfolding named_in
  from_iter_onto acc [] = acc
  from_iter_onto acc (n ∷ ns) = from_iter_onto (union acc (named_in declared n)) ns

  unfoldable pub from_iter : List Bytes → Set
  unfolding from_iter_onto
  from_iter ns = from_iter_onto empty ns
