-- ===== src/Base/Utf8.antt =====
-- `std::str::from_utf8`: which bytes are the UTF-8 encoding of a text.
use Prim.Native.Nat.{ℕ, zero, suc}
use mathlib.Core.Path.{◌≡◌, refl, ap, ◌∙◌}
use mathlib.Core.Bool.{Bool, true, false, ◌&&◌}
use mathlib.Core.List.{[], ◌∷◌, ◌++◌}
use brev.Base.Tests.{ltb, leb, ◌==◌, if◌then◌else◌}
use brev.Base.Lists.{All}
use brev.Base.Text.{Bytes}

-- What the next byte has to be: the first of a character, or one from `lo` to `hi` with so many
-- continuation bytes behind it.
pub data Next : Type 0 where
  lead bad : Next
  within : ℕ → ℕ → ℕ → Next

after : ℕ → Next
after zero = lead
after (suc n) = within 0x80 0xbf n

lead_byte : ℕ → Next
lead_byte c =
    if ltb c 0x80
    then lead
    else if ltb c 0xc2
    then bad
    else if ltb c 0xe0
    then within 0x80 0xbf 0
    else if c == 0xe0
    then within 0xa0 0xbf 1
    else if c == 0xed
    then within 0x80 0x9f 1
    else if ltb c 0xf0
    then within 0x80 0xbf 1
    else if c == 0xf0
    then within 0x90 0xbf 2
    else if ltb c 0xf4
    then within 0x80 0xbf 2
    else if c == 0xf4
    then within 0x80 0x8f 2
    else bad

next_byte : Next → ℕ → Next
unfolding after lead_byte
next_byte lead c = lead_byte c
next_byte bad c = bad
next_byte (within lo hi n) c = if leb lo c && leb c hi then after n else bad

utf8_from : Next → Bytes → Bool
unfolding next_byte
utf8_from lead [] = true
utf8_from _ [] = false
utf8_from e (c ∷ cs) = utf8_from (next_byte e c) cs

unfoldable pub is_utf8 : Bytes → Bool
unfolding utf8_from
is_utf8 = utf8_from lead

abbrev pub IsAscii : Bytes → Type 0
IsAscii = All (λ c. ltb c 0x80 ≡ true)

lead_byte-ascii : (c : ℕ) → ltb c 0x80 ≡ true → lead_byte c ≡ lead
unfolding lead_byte
lead_byte-ascii c h = rw h

-- ASCII in front of a text changes nothing.
pub is_utf8-IsAscii : (a b : Bytes) → IsAscii a → is_utf8 (a ++ b) ≡ is_utf8 b
unfolding is_utf8
is_utf8-IsAscii [] b h = refl
is_utf8-IsAscii (c ∷ cs) b h =
    ap (λ e. utf8_from e (cs ++ b)) (lead_byte-ascii c h.0) ∙ is_utf8-IsAscii cs b h.1
