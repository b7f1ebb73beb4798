-- ===== src/Auth/Plain.antt =====
-- crates/auth/src/sasl/plain.rs: the mechanism PLAIN, and from crates/auth/src the credentials, the
-- errors and the validator, which the program is given.
use brev.Base.{
  ℕ, ◌≡◌, refl, ap, ◌∙◌, ◌↔◌, true, none, some, List, [], ◌∷◌, ◌++◌, Bytes, if◌then◌else◌,
  split_once, split_once-append, split_once-some, Option-cases, Bool-cases, inl, inr, zero, suc,
}
use brev.Base.Utf8.{is_utf8}

pub record Credentials : Type 0 where
  pub username : Bytes
  pub password : Bytes

pub data DecodeError : Type 0 where
  utf8 missing_parts : DecodeError

pub data Decoded : Type 0 where
  decoded : Credentials → Decoded
  undecodable : DecodeError → Decoded

-- `str::splitn` at an ASCII byte.
unfoldable pub splitn : ℕ → ℕ → Bytes → List Bytes
unfolding split_once
splitn zero d s = []
splitn (suc zero) d s = s ∷ []
splitn (suc (suc n)) d s = elim (split_once d s) [
  | none ↦ s ∷ []
  | some (a, b) ↦ a ∷ splitn (suc n) d b
]

-- `skip(1)`, and the two calls of `next`.
unfoldable pub credentials_of : List Bytes → Decoded
credentials_of [] = undecodable missing_parts
credentials_of (z ∷ []) = undecodable missing_parts
credentials_of (z ∷ u ∷ []) = undecodable missing_parts
credentials_of (z ∷ u ∷ p ∷ rest) = decoded (record { username = u; password = p })

unfoldable pub decode : Bytes → Decoded
unfolding is_utf8 splitn credentials_of
decode text = if is_utf8 text then credentials_of (splitn 3 0 text) else undecodable utf8

pub data ValidationError : Type 0 where
  invalid_credentials unknown : ValidationError

pub data Validated : Type 0 where
  valid : Bytes → Validated
  invalid : ValidationError → Validated

pub data MechanismError : Type 0 where
  validation : ValidationError → MechanismError
  decode_error : MechanismError

-- `MechanismResult`: done with an identity, another challenge, or an error.
pub data MechanismResult : Type 0 where
  break : Bytes → MechanismResult
  continue : Bytes → MechanismResult
  error : MechanismError → MechanismResult

unfoldable pub on_validated : Validated → MechanismResult
on_validated (valid i) = break i
on_validated (invalid e) = error (validation e)

unfoldable pub eat_decoded : (Credentials → Validated) → Decoded → MechanismResult
unfolding on_validated
eat_decoded validate (undecodable e) = error decode_error
eat_decoded validate (decoded c) = on_validated (validate c)

-- `eat`, with the validator's answers.
unfoldable pub eat : (Credentials → Validated) → Bytes → MechanismResult
unfolding eat_decoded decode
eat validate challenge = eat_decoded validate (decode challenge)

-- The text of PLAIN: an identity to act as, the user name and the password, with a NUL between.
pub record Encodes (c : Credentials) (text : Bytes) : Type 0 where
  pub authzid : Bytes
  pub authzid_plain : split_once 0 authzid ≡ none
  pub username_plain : split_once 0 c.username ≡ none
  pub utf8 : is_utf8 text ≡ true
  pub is : text ≡ authzid ++ 0 ∷ (c.username ++ 0 ∷ c.password)

splitn-append :
    (z u p : Bytes)
    → split_once 0 z ≡ none
    → split_once 0 u ≡ none
    → splitn 3 0 (z ++ 0 ∷ (u ++ 0 ∷ p)) ≡ z ∷ u ∷ p ∷ []
unfolding splitn
splitn-append z u p h k =
    rw (split_once-append 0 z (u ++ 0 ∷ p) h, split_once-append 0 u p k, splitn) refl

decode-Encodes : (c : Credentials) (text : Bytes) → Encodes c text → decode text ≡ decoded c
unfolding decode credentials_of
decode-Encodes c text e =
    rw
      (e.utf8, e.is, splitn-append e.authzid c.username c.password e.authzid_plain e.username_plain)

Encodes-two :
    (c : Credentials) (text z rest u p : Bytes)
    → is_utf8 text ≡ true
    → split_once 0 text ≡ some (z, rest)
    → split_once 0 rest ≡ some (u, p)
    → decoded (record { username = u; password = p }) ≡ decoded c
    → Encodes c text
Encodes-two c text z rest u p v e f h =
    let (text_is, z_plain) = split_once-some 0 text z rest e in
    let (rest_is, u_plain) = split_once-some 0 rest u p f in
    let same : record { username = u; password = p } ≡ c = cc in
    rw (← same) (record {
      authzid = z;
      authzid_plain = z_plain;
      username_plain = u_plain;
      utf8 = v;
      is = text_is ∙ ap (λ r. z ++ 0 ∷ r) rest_is;
    })

Encodes-decode : (c : Credentials) (text : Bytes) → decode text ≡ decoded c → Encodes c text
unfolding decode credentials_of splitn
Encodes-decode c text h = elim (Bool-cases (is_utf8 text)) [
  | inr e ↦ cc (rw e at h)
  | inl v ↦ elim (Option-cases (split_once 0 text)) [
    | inl e ↦ cc (rw (v, e, splitn) at h)
    | inr ((z, rest), e) ↦ elim (Option-cases (split_once 0 rest)) [
      | inl f ↦ cc (rw (v, e, f, splitn) at h)
      | inr ((u, p), f) ↦ Encodes-two c text z rest u p v e f (rw (v, e, f, splitn) at h)
    ]
  ]
]

-- A text decodes to credentials if and only if it is UTF-8 and encodes them: the text before the
-- first NUL is any, the user name stands before the second, and the password is all that follows.
pub decode_iff : (c : Credentials) (text : Bytes) → (decode text ≡ decoded c) ↔ Encodes c text
decode_iff c text = (Encodes-decode c text, decode-Encodes c text)

on_decoded_iff :
    (validate : Credentials → Validated) (i : Bytes) (d : Decoded)
    → (eat_decoded validate d ≡ break i)
      ↔ ((c : Credentials) × (d ≡ decoded c) × (validate c ≡ valid i))
unfolding eat_decoded on_validated
on_decoded_iff validate i (undecodable e) = (λ h. cc, λ (c, h, k). cc)
on_decoded_iff validate i (decoded c) = (
  λ h. (c, refl, on_valid (validate c) h),
  λ (c', h, k). let same : c ≡ c' = cc in rw (same, k) refl,
)
  where
    on_valid : (v : Validated) → on_validated v ≡ break i → v ≡ valid i
    on_valid (valid j) h = cc
    on_valid (invalid e) h = cc

eat_decoded_ends :
    (validate : Credentials → Validated) (d : Decoded) (more : Bytes)
    → eat_decoded validate d ≡ continue more
    → ⊥
unfolding eat_decoded on_validated
eat_decoded_ends validate (undecodable e) more h = cc
eat_decoded_ends validate (decoded c) more h = on_validated_ends (validate c) h
  where
    on_validated_ends : (v : Validated) → on_validated v ≡ continue more → ⊥
    on_validated_ends (valid j) k = cc
    on_validated_ends (invalid e) k = cc

-- Whatever the validator answers, the mechanism ends with an identity if and only if the text encodes
-- credentials that the validator accepts with that identity; it never sends a further challenge.
pub eat_iff :
    (validate : Credentials → Validated) (text i : Bytes)
    → ((eat validate text ≡ break i)
        ↔ ((c : Credentials) × Encodes c text × (validate c ≡ valid i)))
      × ((more : Bytes) → eat validate text ≡ continue more → ⊥)
unfolding eat
eat_iff validate text i =
    let (sound, complete) = on_decoded_iff validate i (decode text) in
    (
      (
        λ h. let (c, e, v) = sound h in (c, Encodes-decode c text e, v),
        λ (c, e, v). complete (c, decode-Encodes c text e, v),
      ),
      λ more h. eat_decoded_ends validate (decode text) more h,
    )
