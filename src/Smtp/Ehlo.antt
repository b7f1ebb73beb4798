-- ===== src/Smtp/Ehlo.antt =====
-- crates/smtp/src/ehlo.rs: the answer to EHLO.
pub mod Read
pub mod Lines
pub mod Texts
pub mod Folds
pub mod RoundTrip
use brev.Base.{
  ℕ, ◌≡◌, ◌↔◌, Bool, true, false, Option, none, some, List, [], ◌∷◌, ◌++◌, arith, Bytes, codes,
  crlf,
}
use brev.Base.Decimal.{show}
use brev.Flags.{Flags, Bitflags, names, blank_names}

pub data Extension : Type 0 where
  eightbitmime smtputf8 chunking starttls enhancedstatuscodes : Extension

pub data AuthFlag : Type 0 where
  login plain : AuthFlag

abbrev pub extension_name : Extension → Bytes
extension_name eightbitmime = codes "8BITMIME"
extension_name smtputf8 = codes "SMTPUTF8"
extension_name chunking = codes "CHUNKING"
extension_name starttls = codes "STARTTLS"
extension_name enhancedstatuscodes = codes "ENHANCEDSTATUSCODES"

abbrev pub auth_name : AuthFlag → Bytes
auth_name login = codes "LOGIN"
auth_name plain = codes "PLAIN"

abbrev pub extension_equal : Extension → Extension → Bool
extension_equal eightbitmime eightbitmime = true
extension_equal smtputf8 smtputf8 = true
extension_equal chunking chunking = true
extension_equal starttls starttls = true
extension_equal enhancedstatuscodes enhancedstatuscodes = true
extension_equal _ _ = false

pub extension_equal_iff : (a b : Extension) → (extension_equal a b ≡ true) ↔ (a ≡ b)
extension_equal_iff a b = ground arith

abbrev pub auth_equal : AuthFlag → AuthFlag → Bool
auth_equal login login = true
auth_equal plain plain = true
auth_equal _ _ = false

pub auth_equal_iff : (a b : AuthFlag) → (auth_equal a b ≡ true) ↔ (a ≡ b)
auth_equal_iff a b = ground arith

-- `Extensions`.
abbrev pub extensions : Flags
extensions = record {
  Flag = Extension;
  declared = eightbitmime ∷ smtputf8 ∷ chunking ∷ starttls ∷ enhancedstatuscodes ∷ [];
  serialized = extension_name;
  equal = extension_equal;
  equal_iff = extension_equal_iff;
}

-- `Auth`.
abbrev pub auths : Flags
auths = record {
  Flag = AuthFlag;
  declared = login ∷ plain ∷ [];
  serialized = auth_name;
  equal = auth_equal;
  equal_iff = auth_equal_iff;
}

-- The lines behind the first; the last one has a blank in place of the dash.
unfoldable pub render : List Bytes → Bytes
render [] = []
render (l ∷ []) = codes "250 " ++ (l ++ crlf)
render (l ∷ m ∷ rest) = codes "250-" ++ (l ++ (crlf ++ render (m ∷ rest)))

abbrev pub size_line : Option ℕ → List Bytes
size_line none = []
size_line (some n) = (codes "SIZE " ++ show n) ∷ []

module _ (ext : Bitflags extensions) (auth : Bitflags auths) where
  pub record Response : Type 0 where
    pub domain : Bytes
    pub offered : ext.Set
    pub size : Option ℕ
    pub mechanisms : auth.Set

  -- `Display` of `Auth`.
  unfoldable pub auth_to_string : auth.Set → Bytes
  unfolding names blank_names
  auth_to_string a = codes "AUTH" ++ blank_names (names auths auth a)

  -- `Display` of `Response`.
  unfoldable pub to_string : Response → Bytes
  unfolding names render auth_to_string
  to_string r =
      codes "250-"
      ++ (r.domain
          ++ (crlf
              ++ render (
                  names extensions ext r.offered
                  ++ (size_line r.size ++ auth_to_string r.mechanisms ∷ []))))
