-- ===== src/Auth.antt =====
-- crates/auth/src: credentials, and the mechanism PLAIN.
pub mod Plain
use brev.Base.{Option, none, some, Bytes, codes, same, to_ascii_uppercase, if◌then◌else◌}

pub data WhichMechanism : Type 0 where
  plain : WhichMechanism

-- `WhichMechanism::from_str`.
unfoldable pub mechanism_from_str : Bytes → Option WhichMechanism
unfolding same to_ascii_uppercase
mechanism_from_str s = if same (to_ascii_uppercase s) (codes "PLAIN") then some plain else none
