-- ===== src/Smtp/Ehlo/Texts.antt =====
-- The lines that make up the answer to EHLO, and how they are cut and split again.
use brev.Base.{
  ℕ, ◌<◌, ◌≡◌, refl, ◌≢◌, Bool, true, false, ◌&&◌, not, Option, none, some, List, [], ◌∷◌, ◌++◌,
  All, map, arith, length, Bytes, codes, crlf, ◌==◌, split_once,
}
use brev.Base.Decimal.{show, show-is_digit, show-ne-nil}
use brev.Base.Trim.{IsLine, printable, printable-append}
use brev.Flags.{blank_names}
use brev.Flags.RoundTrip.{WellNamed}
use brev.Io.{Incoming}
use brev.Smtp.Command.{u64_limit}
use brev.Smtp.Ehlo.{
  Extension, eightbitmime, smtputf8, chunking, starttls, enhancedstatuscodes, AuthFlag, login,
  plain, extension_name, auth_name, extensions, auths, size_line, render,
}
use brev.Smtp.Ehlo.Read.{reads_left}
use brev.Smtp.Ehlo.Lines.{IsLine-append, digits-IsLine, sent, arrives}

-- A text cut behind each line break, as the reads of a line take it.
abbrev pub add_to_line : Bool → ℕ → List Bytes → List Bytes
add_to_line true c ls = (c ∷ []) ∷ ls
add_to_line false c [] = (c ∷ []) ∷ []
add_to_line false c (l ∷ ls) = (c ∷ l) ∷ ls

abbrev pub cut : Bytes → List Bytes
cut [] = []
cut (c ∷ cs) = add_to_line (c == b'\n') c (cut cs)

cut-line :
    (l rest : Bytes) → printable l ≡ true → cut (l ++ (crlf ++ rest)) ≡ (l ++ crlf) ∷ cut rest
cut-line [] rest h = refl
cut-line (c ∷ cs) rest h =
    let inside : (c == b'\n') ≡ false = ground arith in
    let after : printable cs ≡ true = ground arith in rw (cut-line cs rest after, inside) refl

cut-render :
    (l : Bytes) (ls : List Bytes) → All IsLine (l ∷ ls) → cut (render (l ∷ ls)) ≡ sent (l ∷ ls)
unfolding render
cut-render l [] h = rw (cut-line l [] ((h.0).prints)) refl
cut-render l (m ∷ ls) h =
    rw (cut-line l (render (m ∷ ls)) ((h.0).prints), cut-render m ls (h.1)) refl

pub cut-domain :
    (d : Bytes) (tail : List Bytes)
    → IsLine d
    → All IsLine tail
    → tail ≢ []
    → cut (codes "250-" ++ (d ++ (crlf ++ render tail))) ≡ sent (d ∷ tail)
cut-domain d [] h k n = absurd (n refl)
cut-domain d (l ∷ ls) h k n = rw (cut-line d (render (l ∷ ls)) h.prints, cut-render l ls k) refl

pub append_ne_nil : (a b : List Bytes) → b ≢ [] → (a ++ b) ≢ []
append_ne_nil [] b h = h
append_ne_nil (x ∷ xs) b h = λ e. cc

pub extensions-WellNamed : WellNamed extensions
extensions-WellNamed = record { complete = λ f. ground arith; distinct = λ f g e. ground arith }

pub auths-WellNamed : WellNamed auths
auths-WellNamed = record { complete = λ f. ground arith; distinct = λ f g e. ground arith }

pub length-sent :
    (l : Bytes) (ls : List Bytes) (more : List Incoming)
    → length ls < reads_left (map arrives (sent (l ∷ ls)) ++ more)
length-sent l [] more = omega arith
length-sent l (m ∷ ls) more = omega (arith, length-sent m ls more)

extension_name-IsLine : (f : Extension) → IsLine (extension_name f)
extension_name-IsLine eightbitmime = record { prints = refl; visible = refl }
extension_name-IsLine smtputf8 = record { prints = refl; visible = refl }
extension_name-IsLine chunking = record { prints = refl; visible = refl }
extension_name-IsLine starttls = record { prints = refl; visible = refl }
extension_name-IsLine enhancedstatuscodes = record { prints = refl; visible = refl }

pub blank_names-IsLine : (fs : List AuthFlag) → IsLine (blank_names (map auth_name fs))
unfolding blank_names
blank_names-IsLine [] = record { prints = refl; visible = refl }
blank_names-IsLine (login ∷ fs) =
    IsLine-append (codes " LOGIN") (blank_names (map auth_name fs))
      (record { prints = refl; visible = refl }) (blank_names-IsLine fs)
blank_names-IsLine (plain ∷ fs) =
    IsLine-append (codes " PLAIN") (blank_names (map auth_name fs))
      (record { prints = refl; visible = refl }) (blank_names-IsLine fs)

pub auth_name-no_blank :
    (fs : List AuthFlag) → All (λ v. split_once b' ' v ≡ none) (map auth_name fs)
unfolding split_once
auth_name-no_blank [] = tt
auth_name-no_blank (login ∷ fs) = (refl, auth_name-no_blank fs)
auth_name-no_blank (plain ∷ fs) = (refl, auth_name-no_blank fs)

-- A size that a `u64` can hold.
abbrev pub FitsU64 : Option ℕ → Type 0
FitsU64 none = Unit
FitsU64 (some n) = n < u64_limit

abbrev pub no_blank : Bytes → Bool
no_blank [] = true
no_blank (c ∷ cs) = not (c == b' ') && no_blank cs

-- The text has no blank, by computation.
pub no_blank-split_once : (s : Bytes) → no_blank s ≡ true → split_once b' ' s ≡ none
unfolding split_once
no_blank-split_once [] h = refl
no_blank-split_once (c ∷ cs) h = ground (arith, no_blank-split_once cs)

size_text-IsLine : (ds : Bytes) → ds ≢ [] → IsLine ds → IsLine (codes "SIZE " ++ ds)
size_text-IsLine [] h k = absurd (h refl)
size_text-IsLine (d ∷ ds) h k = record {
  prints = printable-append (codes "SIZE ") (d ∷ ds) refl k.prints;
  visible = k.visible;
}

pub size_line-IsLine :
    (size : Option ℕ) (rest : List Bytes) → All IsLine rest → All IsLine (size_line size ++ rest)
size_line-IsLine none rest h = h
size_line-IsLine (some n) rest h =
    (size_text-IsLine (show n) (show-ne-nil n) (digits-IsLine (show n) (show-is_digit n)), h)

pub extension_names-IsLine :
    (fs : List Extension) (rest : List Bytes)
    → All IsLine rest
    → All IsLine (map extension_name fs ++ rest)
extension_names-IsLine [] rest h = h
extension_names-IsLine (f ∷ fs) rest h = (extension_name-IsLine f, extension_names-IsLine fs rest h)
