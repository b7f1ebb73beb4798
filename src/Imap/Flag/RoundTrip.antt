-- ===== src/Imap/Flag/RoundTrip.antt =====
-- The text of a flag and its parser are inverse, but for keywords that spell another flag.
use brev.Base.{
  ◌≡◌, refl, false, Bytes, codes, same, same_iff, if◌then◌else◌, Bool-cases, inl, inr, List, [],
  ◌∷◌, All,
}
use brev.Imap.Flag.{
  Flag, seen, answered, flagged, deleted, draft, recent, forwarded, mdn_sent, junk, not_junk,
  phishing, keyword, flag_to_string, flag_from_str,
}

-- One arm of the `match`: what holds of the flag in both cases holds of the result.
arm_text :
    (s name : Bytes) (f rest : Flag)
    → flag_to_string f ≡ name
    → flag_to_string rest ≡ s
    → flag_to_string (if same s name then f else rest) ≡ s
arm_text s name f rest h k = elim (Bool-cases (same s name)) [
  | inl e ↦ let eq : s ≡ name = (same_iff s name).0 e in rw e (cc (h, eq))
  | inr e ↦ rw e k
]

-- A flag that is parsed has the text that was parsed, whatever text it was.
pub flag_to_string-flag_from_str : (s : Bytes) → flag_to_string (flag_from_str s) ≡ s
unfolding flag_from_str flag_to_string
flag_to_string-flag_from_str s = arm_text s _ seen _ refl (
    arm_text s _ answered _ refl (
      arm_text s _ flagged _ refl (
        arm_text s _ deleted _ refl (
          arm_text s _ draft _ refl (
            arm_text s _ recent _ refl (
              arm_text s _ forwarded _ refl (
                arm_text s _ mdn_sent _ refl (
                  arm_text s _ junk _ refl
                    (arm_text s _ not_junk _ refl (arm_text s _ phishing _ refl refl))))))))))

-- The texts that stand for no keyword.
abbrev pub reserved : List Bytes
reserved =
    codes "\\Seen"
    ∷ codes "\\Answered"
    ∷ codes "\\Flagged"
    ∷ codes "\\Deleted"
    ∷ codes "\\Draft"
    ∷ codes "\\Recent"
    ∷ codes "$Forwarded"
    ∷ codes "$MDNSent"
    ∷ codes "$Junk"
    ∷ codes "$NotJunk"
    ∷ codes "$Phishing"
    ∷ []

-- A keyword is none of the reserved texts.
abbrev pub IsProper : Flag → Type 0
IsProper (keyword k) = All (λ name. same k name ≡ false) reserved
IsProper _ = Unit

-- The text of a flag is parsed to that flag; of a keyword, if it is none of the eleven reserved texts.
pub flag_from_str-flag_to_string : (f : Flag) → IsProper f → flag_from_str (flag_to_string f) ≡ f
unfolding flag_from_str flag_to_string same
flag_from_str-flag_to_string (keyword k) h =
    let (a, (b, (c, (d, (e, (f, (g, (i, (j, (l, (m, all))))))))))) = h in
    rw (a, b, c, d, e, f, g, i, j, l, m) refl
flag_from_str-flag_to_string _ h = refl
