-- ===== src/Smtp/Ehlo/Folds.antt =====
-- What a client makes of the lines of the answer to EHLO, kind by kind.
use brev.Base.{
  ℕ, ◌<◌, ◌≡◌, refl, Option, none, some, List, [], ◌∷◌, ◌++◌, map, Bytes, codes, same, split,
  split_once, split_or, split_or-append, split_or-none,
}
use brev.Base.Decimal.{show, parse_uint-show}
use brev.Flags.{Bitflags, blank_names, from_iter_onto, from_iter, named_in}
use brev.Smtp.Command.{u64_limit}
use brev.Smtp.Ehlo.{
  Extension, eightbitmime, smtputf8, chunking, starttls, enhancedstatuscodes, AuthFlag,
  extension_name, auth_name, extensions, auths, size_line,
}
use brev.Smtp.Ehlo.Read.{Reading, on_size, on_keyword, on_text, extension_of}
use brev.Smtp.Ehlo.Lines.{fold}
use brev.Flags.RoundTrip.{split-blank_names}
use brev.Smtp.Ehlo.Texts.{FitsU64, auth_name-no_blank, no_blank-split_once}

module _ (ext : Bitflags extensions) (auth : Bitflags auths) where
  abbrev pub R : Type 0
  R = Reading ext auth

  -- What is read once the domain is known.
  abbrev pub state : Bytes → ext.Set → Option ℕ → auth.Set → R
  state d o size m = record { domain = some d; offered = o; size = size; mechanisms = m }

  on_text-extension_name :
      (f : Extension) (d : Bytes) (o : ext.Set) (size : Option ℕ) (m : auth.Set)
      → on_text ext auth (some d) (state d o size m) (extension_name f)
        ≡ some (
            state d
              (ext.union o (named_in extensions ext (extensions.declared) (extension_name f)))
              size
              m)
  unfolding on_text extension_of on_keyword split_or split_once same named_in
  on_text-extension_name eightbitmime d o size m = refl
  on_text-extension_name smtputf8 d o size m = refl
  on_text-extension_name chunking d o size m = refl
  on_text-extension_name starttls d o size m = refl
  on_text-extension_name enhancedstatuscodes d o size m = refl

  pub fold-names :
      (fs : List Extension) (d : Bytes) (o : ext.Set) (size : Option ℕ) (m : auth.Set)
      (tail : List Bytes)
      → fold ext auth (state d o size m) (map extension_name fs ++ tail)
        ≡ fold ext auth
            (state d (from_iter_onto extensions ext o (map extension_name fs)) size m)
            tail
  unfolding from_iter_onto
  fold-names [] d o size m tail = refl
  fold-names (f ∷ fs) d o size m tail = rw (on_text-extension_name f d o size m) (
      fold-names fs d
        (ext.union o (named_in extensions ext (extensions.declared) (extension_name f))) size m
        tail)

  on_text-split :
      (r : R) (d keyword args text : Bytes)
      → split_or b' ' text ≡ (keyword, args)
      → on_text ext auth (some d) r text ≡ on_keyword ext auth r (extension_of keyword) keyword args
  unfolding on_text
  on_text-split r d keyword args text h = rw h refl

  on_keyword-size :
      (r : R) (n : ℕ)
      → n < u64_limit
      → on_keyword ext auth r (extension_of (codes "SIZE")) (codes "SIZE") (show n)
        ≡ some (record r { size = some n })
  unfolding on_keyword extension_of same on_size
  on_keyword-size r n h = rw (parse_uint-show u64_limit n h) refl

  on_keyword-auth :
      (r : R) (args : Bytes)
      → on_keyword ext auth r (extension_of (codes "AUTH")) (codes "AUTH") args
        ≡ some (record r { mechanisms = from_iter auths auth (split b' ' args) })
  unfolding on_keyword extension_of same
  on_keyword-auth r args = refl

  pub fold-size :
      (size : Option ℕ) (d : Bytes) (o : ext.Set) (m : auth.Set) (tail : List Bytes)
      → FitsU64 size
      → fold ext auth (state d o none m) (size_line size ++ tail)
        ≡ fold ext auth (state d o size m) tail
  fold-size none d o m tail h = refl
  fold-size (some n) d o m tail h =
      rw
        (
          on_text-split (state d o none m) d (codes "SIZE") (show n) (codes "SIZE " ++ show n) (
              split_or-append b' ' (codes "SIZE") (show n)
                (no_blank-split_once (codes "SIZE") refl)),
          on_keyword-size (state d o none m) n h,
        )
        refl

  -- The mechanisms that are read.
  abbrev pub mechanisms_of : List AuthFlag → auth.Set
  mechanisms_of [] = from_iter auths auth ([] ∷ [])
  mechanisms_of (f ∷ fs) = from_iter auths auth (map auth_name (f ∷ fs))

  -- What stands behind the first blank.
  abbrev args_of : List AuthFlag → Bytes
  args_of [] = []
  args_of (f ∷ fs) = auth_name f ++ blank_names (map auth_name fs)

  split_or-auth :
      (fs : List AuthFlag)
      → split_or b' ' (codes "AUTH" ++ blank_names (map auth_name fs)) ≡ (codes "AUTH", args_of fs)
  unfolding blank_names
  split_or-auth [] = split_or-none b' ' (codes "AUTH") (no_blank-split_once (codes "AUTH") refl)
  split_or-auth (f ∷ fs) =
      split_or-append b' ' (codes "AUTH") (args_of (f ∷ fs))
        (no_blank-split_once (codes "AUTH") refl)

  from_iter-args :
      (fs : List AuthFlag) → from_iter auths auth (split b' ' (args_of fs)) ≡ mechanisms_of fs
  unfolding split
  from_iter-args [] = refl
  from_iter-args (f ∷ fs) =
      rw (split-blank_names (auth_name f) (map auth_name fs) (auth_name-no_blank (f ∷ fs))) refl

  pub fold-auth :
      (fs : List AuthFlag) (d : Bytes) (o : ext.Set) (size : Option ℕ) (m : auth.Set)
      → fold ext auth (state d o size m) ((codes "AUTH" ++ blank_names (map auth_name fs)) ∷ [])
        ≡ some (state d o size (mechanisms_of fs))
  fold-auth fs d o size m =
      rw
        (
          on_text-split (state d o size m) d (codes "AUTH") (args_of fs)
              (codes "AUTH" ++ blank_names (map auth_name fs)) (split_or-auth fs),
          on_keyword-auth (state d o size m) (args_of fs),
          from_iter-args fs,
        )
        refl
