-- ===== src/Flags/RoundTrip.antt =====
-- The names of a set of flags give the set back.
use brev.Base.{
  ◌≡◌, refl, sym, ap, ◌∙◌, Bool, true, false, ◌||◌, ◌&&◌, List, [], ◌∷◌, ◌++◌, All, none, Bytes,
  append-nil, split, split_once, split-none, split-append, map, arith, same, same_iff, Bool-cases,
  inl, inr,
}
use brev.Flags.{
  Flags, Bitflags, Lawful, keep, names, named_in, from_iter_onto, from_iter, blank_names,
}

-- The flag is in the list.
abbrev pub elem : (flags : Flags) → flags.Flag → List flags.Flag → Bool
elem flags g [] = false
elem flags g (f ∷ fs) = flags.equal f g || elem flags g fs

-- What a use of the macro has: it declares every flag, and no name twice.
pub record WellNamed (flags : Flags) : Type 0 where
  pub complete : (f : flags.Flag) → elem flags f flags.declared ≡ true
  pub distinct : (f g : flags.Flag) → flags.serialized f ≡ flags.serialized g → f ≡ g

or_assoc : (a b c : Bool) → ((a || b) || c) ≡ (a || (b || c))
or_assoc true b c = refl
or_assoc false b c = refl

module _ (flags : Flags) (b : Bitflags flags) (law : Lawful flags b) (named : WellNamed flags) where
  open flags use {Flag, declared, serialized}
  open b use {Set, empty, flag, union, iter}

  equal_self : (f : Flag) → flags.equal f f ≡ true
  equal_self f = (flags.equal_iff f f).1 refl

  pub named_in-serialized :
      (fs : List Flag) (g : Flag)
      → elem flags g fs ≡ true
      → named_in flags b fs (serialized g) ≡ flag g
  unfolding named_in
  named_in-serialized [] g h = cc
  named_in-serialized (f ∷ fs) g h = elim (Bool-cases (same (serialized g) (serialized f))) [
    | inl e ↦
        let eq : g ≡ f = named.distinct g f ((same_iff (serialized g) (serialized f)).0 e) in
        rw e (ap flag (sym eq))
    | inr e ↦ rw e (named_in-serialized fs g (later e))
  ]
    where
      later : same (serialized g) (serialized f) ≡ false → elem flags g fs ≡ true
      later e = elim (Bool-cases (flags.equal f g)) [
        | inl k ↦
            let eq : f ≡ g = (flags.equal_iff f g).0 k in
            let itself : same (serialized g) (serialized f) ≡ true =
              (same_iff (serialized g) (serialized f)).1 (ap serialized (sym eq)) in
            cc (itself, e)
        | inr k ↦ rw k at h
      ]

  contains-from_iter_onto :
      (acc : Set) (xs : List Flag) (g : Flag)
      → law.contains (from_iter_onto flags b acc (map serialized xs)) g
        ≡ (law.contains acc g || elem flags g xs)
  unfolding from_iter_onto
  contains-from_iter_onto acc [] g = ground arith
  contains-from_iter_onto acc (x ∷ xs) g =
      rw
        (
          contains-from_iter_onto (union acc (named_in flags b declared (serialized x))) xs g,
          law.contains-union,
          named_in-serialized declared x (named.complete x),
          law.contains-flag,
        )
        (or_assoc (law.contains acc g) (flags.equal x g) (elem flags g xs))

  elem-keep :
      (p : Flag → Bool) (xs : List Flag) (g : Flag)
      → elem flags g (keep p xs) ≡ (elem flags g xs && p g)
  elem-keep p [] g = refl
  elem-keep p (x ∷ xs) g = elim (Bool-cases (flags.equal x g)) [
    | inl e ↦
        let same_test : p x ≡ p g = ap p ((flags.equal_iff x g).0 e) in
        ground (arith, elem-keep p xs g)
    | inr e ↦ ground (arith, elem-keep p xs g)
  ]

  -- Of flags that are all declared, under names that all differ, a set is given back by its names.
  pub from_iter-names :
      (s : Set) (g : Flag) → law.contains (from_iter flags b (names flags b s)) g ≡ law.contains s g
  unfolding from_iter names
  from_iter-names s g =
      contains-from_iter_onto empty (iter s) g
      ∙ rw
          (
            law.contains-empty,
            law.iter_declared,
            elem-keep (law.contains s) declared g,
            named.complete g,
          )
          refl

-- Words between blanks, of which none has a blank, are split again.
pub split-blank_names :
    (w : Bytes) (ws : List Bytes)
    → All (λ v. split_once b' ' v ≡ none) (w ∷ ws)
    → split b' ' (w ++ blank_names ws) ≡ w ∷ ws
unfolding blank_names
split-blank_names w [] h = rw append-nil (split-none b' ' w (h.0))
split-blank_names w (v ∷ ws) h =
    rw (split-append b' ' w (v ++ blank_names ws) (h.0), split-blank_names v ws (h.1)) refl
