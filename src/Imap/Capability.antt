-- ===== src/Imap/Capability.antt =====
-- crates/imap-proto/src/command/capability.rs: the capabilities of the server.
use brev.Base.{◌≡◌, ◌↔◌, Bool, true, false, [], ◌∷◌, ◌++◌, arith, Bytes, codes}
use brev.Flags.{Flags, Bitflags, names, blank_names}

pub data Capability : Type 0 where
  imap4 imap4rev1 imap4rev2 starttls auth_plain logindisabled : Capability
  sasl_ir : Capability

abbrev pub capability_name : Capability → Bytes
capability_name imap4 = codes "IMAP4"
capability_name imap4rev1 = codes "IMAP4rev1"
capability_name imap4rev2 = codes "IMAP4rev2"
capability_name starttls = codes "STARTTLS"
capability_name auth_plain = codes "AUTH=PLAIN"
capability_name logindisabled = codes "LOGINDISABLED"
capability_name sasl_ir = codes "SASL-IR"

abbrev pub capability_equal : Capability → Capability → Bool
capability_equal imap4 imap4 = true
capability_equal imap4rev1 imap4rev1 = true
capability_equal imap4rev2 imap4rev2 = true
capability_equal starttls starttls = true
capability_equal auth_plain auth_plain = true
capability_equal logindisabled logindisabled = true
capability_equal sasl_ir sasl_ir = true
capability_equal _ _ = false

pub capability_equal_iff : (a b : Capability) → (capability_equal a b ≡ true) ↔ (a ≡ b)
capability_equal_iff a b = ground arith

-- `Capabilities`.
abbrev pub capability_flags : Flags
capability_flags = record {
  Flag = Capability;
  declared = imap4 ∷ imap4rev1 ∷ imap4rev2 ∷ starttls ∷ auth_plain ∷ logindisabled ∷ sasl_ir ∷ [];
  serialized = capability_name;
  equal = capability_equal;
  equal_iff = capability_equal_iff;
}

-- `Display` of `Capabilities`.
unfoldable pub capabilities_to_string : (b : Bitflags capability_flags) → b.Set → Bytes
unfolding names blank_names
capabilities_to_string b s = codes "CAPABILITY" ++ blank_names (names capability_flags b s)
