-- ===== src/Smtp/Data/RoundTrip.antt =====
-- The text that a client sends with its dots escaped (RFC 5321, 4.5.2), against what `decode` makes
-- of it. A message is a list of lines without CR.
use brev.Base.{
  ℕ, ◌≡◌, refl, ap, ◌∙◌, ◌⊎◌, inl, inr, false, some, List, [], ◌∷◌, ◌++◌, All, ◌==◌, if◌then◌else◌,
  Bytes, crlf, codes, ==_iff, Bool-cases,
}
use brev.Smtp.Data.Decode.{decode, decode_from, prepend, terminator}

-- No CR in the line.
abbrev pub IsLine : Bytes → Type 0
IsLine = All (λ c. (c == b'\r') ≡ false)

-- A line does not begin with a dot.
abbrev pub NoDot : Bytes → Type 0
NoDot [] = Unit
NoDot (c ∷ cs) = (c == b'.') ≡ false

-- The client doubles a dot at the start of a line.
unfoldable pub stuff : Bytes → Bytes
stuff [] = []
stuff (c ∷ cs) = if c == b'.' then b'.' ∷ c ∷ cs else c ∷ cs

-- Every line but the first, each behind the CRLF of the line above it, the end, and what the client
-- sends behind it.
unfoldable pub send_rest : List Bytes → Bytes → Bytes
unfolding stuff
send_rest [] tail = terminator ++ tail
send_rest (l ∷ ls) tail = crlf ++ (stuff l ++ send_rest ls tail)

unfoldable pub send : Bytes → List Bytes → Bytes → Bytes
unfolding stuff send_rest
send l ls tail = stuff l ++ send_rest ls tail

unfoldable pub text_rest : List Bytes → Bytes
text_rest [] = crlf
text_rest (l ∷ ls) = crlf ++ (l ++ text_rest ls)

unfoldable pub text : Bytes → List Bytes → Bytes
unfolding text_rest
text l ls = l ++ text_rest ls

-- Bytes other than CR are copied.
decode-IsLine : (l rest : Bytes) → IsLine l → decode (l ++ rest) ≡ prepend l (decode rest)
unfolding decode_from
decode-IsLine [] rest h = refl
decode-IsLine (c ∷ cs) rest h = rw (h.0) (ap (prepend (c ∷ [])) (decode-IsLine cs rest h.1))

decode-NoDot :
    (l rest : Bytes)
    → IsLine l
    → NoDot l
    → decode (crlf ++ (l ++ (crlf ++ rest))) ≡ prepend (crlf ++ l) (decode (crlf ++ rest))
unfolding decode_from
decode-NoDot [] rest h d = refl
decode-NoDot (c ∷ cs) rest h d =
    rw (h.0, d) (ap (prepend (b'\r' ∷ b'\n' ∷ c ∷ [])) (decode-IsLine cs (crlf ++ rest) h.1))

decode-lone_dot :
    (rest : Bytes)
    → decode (crlf ++ (stuff (b'.' ∷ []) ++ (crlf ++ rest)))
      ≡ prepend (crlf ++ b'.' ∷ []) (decode (crlf ++ rest))
unfolding decode_from stuff
decode-lone_dot rest = refl

-- Every line behind the first is a lone dot, or does not begin with a dot.
abbrev pub Plain : Bytes → Type 0
Plain l = IsLine l × (NoDot l ⊎ (l ≡ b'.' ∷ []))

stuff-NoDot : (l : Bytes) → NoDot l → stuff l ≡ l
unfolding stuff
stuff-NoDot [] h = refl
stuff-NoDot (c ∷ cs) h = rw h

-- `send_rest` begins with CRLF, whatever the lines.
send_rest-crlf : (ls : List Bytes) (tail : Bytes) → (t : Bytes) × (send_rest ls tail ≡ crlf ++ t)
unfolding send_rest
send_rest-crlf [] tail = (codes ".\r\n" ++ tail, refl)
send_rest-crlf (l ∷ ls) tail = (stuff l ++ send_rest ls tail, refl)

decode-terminator : (tail : Bytes) → decode (terminator ++ tail) ≡ (crlf, some tail)
unfolding decode_from
decode-terminator tail = refl

decode-send_rest :
    (ls : List Bytes) (tail : Bytes)
    → All Plain ls
    → decode (send_rest ls tail) ≡ (text_rest ls, some tail)
unfolding send_rest text_rest
decode-send_rest [] tail h = decode-terminator tail
decode-send_rest (l ∷ ls) tail h =
    let (t, e) = send_rest-crlf ls tail in
    let ih = decode-send_rest ls tail h.1 in
    elim h.0.1 [
      | inl d ↦ rw (stuff-NoDot l d, e) (decode-NoDot l t h.0.0 d ∙ rw (← e, ih))
      | inr d ↦ rw (d, e) (decode-lone_dot t ∙ rw (← e, ih))
    ]

-- A message whose first line does not begin with a dot, and whose other lines do so only where the
-- dot stands alone, is decoded to its text, up to its end.
pub decode-send :
    (l : Bytes) (ls : List Bytes) (tail : Bytes)
    → IsLine l
    → NoDot l
    → All Plain ls
    → decode (send l ls tail) ≡ (text l ls, some tail)
unfolding send text
decode-send l ls tail h d hs =
    rw (stuff-NoDot l d) (decode-IsLine l (send_rest ls tail) h ∙ rw (decode-send_rest ls tail hs))

decode-dotted :
    (c : ℕ) (cs rest : Bytes)
    → IsLine (c ∷ cs)
    → decode (crlf ++ (stuff (b'.' ∷ c ∷ cs) ++ rest))
      ≡ prepend (crlf ++ b'.' ∷ b'.' ∷ c ∷ cs) (decode rest)
unfolding decode_from stuff
decode-dotted c cs rest k =
    rw k.0 (ap (prepend (b'\r' ∷ b'\n' ∷ b'.' ∷ b'.' ∷ c ∷ [])) (decode-IsLine cs rest k.1))

-- What comes out of a line behind the first: a line `.c…` with more than the dot keeps the dot that
-- the client added.
abbrev pub kept : Bytes → Bytes
kept [] = []
kept (c ∷ []) = c ∷ []
kept (c ∷ d ∷ cs) = if c == b'.' then b'.' ∷ c ∷ d ∷ cs else c ∷ d ∷ cs

unfoldable pub received_rest : List Bytes → Bytes
received_rest [] = crlf
received_rest (l ∷ ls) = crlf ++ (kept l ++ received_rest ls)

decode-kept :
    (l rest : Bytes)
    → IsLine l
    → decode (crlf ++ (stuff l ++ (crlf ++ rest)))
      ≡ prepend (crlf ++ kept l) (decode (crlf ++ rest))
unfolding stuff
decode-kept [] rest h = decode-NoDot [] rest h tt
decode-kept (c ∷ []) rest h = elim (Bool-cases (c == b'.')) [
  | inl e ↦ rw ((==_iff c b'.').0 e) (decode-lone_dot rest)
  | inr e ↦ rw e (decode-NoDot (c ∷ []) rest h e)
]
decode-kept (c ∷ d ∷ cs) rest h = elim (Bool-cases (c == b'.')) [
  | inl e ↦ rw ((==_iff c b'.').0 e) (decode-dotted d cs (crlf ++ rest) (h.1))
  | inr e ↦ rw e (decode-NoDot (c ∷ d ∷ cs) rest h e)
]

decode-received_rest :
    (ls : List Bytes) (tail : Bytes)
    → All IsLine ls
    → decode (send_rest ls tail) ≡ (received_rest ls, some tail)
unfolding send_rest received_rest
decode-received_rest [] tail h = decode-terminator tail
decode-received_rest (l ∷ ls) tail h =
    let (t, e) = send_rest-crlf ls tail in
    let ih = decode-received_rest ls tail h.1 in rw e (decode-kept l t h.0 ∙ rw (← e, ih))

-- A message whose first line does not begin with a dot, whatever its other lines.
pub decode-received :
    (l : Bytes) (ls : List Bytes) (tail : Bytes)
    → IsLine l
    → NoDot l
    → All IsLine ls
    → decode (send l ls tail) ≡ (l ++ received_rest ls, some tail)
unfolding send
decode-received l ls tail h d hs =
    rw (stuff-NoDot l d)
      (decode-IsLine l (send_rest ls tail) h ∙ rw (decode-received_rest ls tail hs))

-- The end of an empty message, right behind DATA, is copied as text.
pub decode_first_dot :
    (rest : Bytes) → decode (b'.' ∷ crlf ++ rest) ≡ prepend (b'.' ∷ []) (decode (crlf ++ rest))
unfolding decode_from
decode_first_dot rest = refl
