-- ===== src/Smtp/Ehlo/Lines.antt =====
-- The lines of a response are read one by one.
use brev.Base.{
  ℕ, zero, suc, ◌<◌, ◌≡◌, refl, ◌∙◌, Bool, true, false, Option, none, some, List, [], ◌∷◌, ◌++◌,
  All, map, arith, length, length-append, Bytes, codes, crlf, ltb, leb, ◌≤◌, ◌>>=◌, Option-cases,
  inl, inr,
}
use brev.Base.Decimal.{is_digit}
use brev.Base.Trim.{IsLine, printable, trim_end-IsLine, printable-append, ends_visible-append}
use brev.Base.Utf8.{is_utf8, IsAscii, is_utf8-IsAscii}
use brev.Flags.{Bitflags}
use brev.Io.{World, Incoming, chunk, returned, receive_from}
use brev.Smtp.Ehlo.{extensions, auths}
use brev.Smtp.Ehlo.Read.{
  line_limit, read_up_to, receive_up_to, Reading, on_text, is_last_line, on_response_line, finished,
  on_response, read_response_within,
}

pub IsLine-append : (a b : Bytes) → IsLine a → IsLine b → IsLine (a ++ b)
IsLine-append a b h k = record {
  prints = printable-append a b h.prints k.prints;
  visible = ends_visible-append a b h.visible k.visible;
}

printable-IsAscii : (l : Bytes) → printable l ≡ true → IsAscii l
printable-IsAscii [] h = tt
printable-IsAscii (c ∷ cs) h = (ground arith, printable-IsAscii cs (ground arith))

pub digits-IsLine : (ds : Bytes) → All (λ c. is_digit c ≡ true) ds → IsLine ds
digits-IsLine [] h = record { prints = refl; visible = refl }
digits-IsLine (d ∷ []) h = record { prints = ground arith; visible = ground arith }
digits-IsLine (d ∷ e ∷ ds) h =
    let rest = digits-IsLine (e ∷ ds) (h.1) in
    record { prints = (let p = rest.prints in ground arith); visible = rest.visible }

-- The lines that are sent for the texts.
abbrev pub sent : List Bytes → List Bytes
sent [] = []
sent (l ∷ []) = (codes "250 " ++ (l ++ crlf)) ∷ []
sent (l ∷ m ∷ rest) = (codes "250-" ++ (l ++ crlf)) ∷ sent (m ∷ rest)

abbrev pub arrives : Bytes → Incoming
arrives l = chunk l false

module _ (ext : Bitflags extensions) (auth : Bitflags auths) where
  abbrev R : Type 0
  R = Reading ext auth

  -- A line of the response, behind its first four bytes.
  on_response_line-IsLine :
      (sep : ℕ) (eol : Bool) (r r' : R) (l : Bytes)
      → is_last_line (sep ∷ (l ++ crlf)) ≡ some eol
      → IsLine l
      → on_text ext auth r.domain r l ≡ some r'
      → on_response_line ext auth r (b'2' ∷ b'5' ∷ b'0' ∷ sep ∷ (l ++ crlf)) ≡ some (eol, r')
  unfolding on_response_line is_last_line
  on_response_line-IsLine sep eol r r' l h k e =
      let long : ltb (length (b'2' ∷ b'5' ∷ b'0' ∷ sep ∷ (l ++ crlf))) 5 ≡ false =
        ground (arith, length-append l crlf) in
      let text : is_utf8 (l ++ crlf) ≡ true =
        is_utf8-IsAscii l crlf (printable-IsAscii l k.prints) ∙ utf8_crlf in
      rw (long, h, text, trim_end-IsLine l k, e) refl
    where
      utf8_crlf : is_utf8 crlf ≡ true
      utf8_crlf = is_utf8-IsAscii crlf [] (refl, (refl, tt))

  -- The texts of the lines, one by one.
  abbrev pub fold : R → List Bytes → Option R
  fold r [] = some r
  fold r (l ∷ ls) = on_text ext auth r.domain r l >>= λ r'. fold r' ls

  within : (line : Bytes) → length line ≤ line_limit → leb (length line) line_limit ≡ true
  within line h = ground arith

  stops :
      (n : ℕ) (r : R) (w : World)
      → (read_response_within ext auth n true r w).0 ≡ returned (finished ext auth r r.domain)
  unfolding read_response_within
  stops zero r w = refl
  stops (suc n) r w = refl

  fold-first :
      (r r' : R) (l : Bytes) (ls : List Bytes)
      → fold r (l ∷ ls) ≡ some r'
      → (next : R) × (on_text ext auth r.domain r l ≡ some next) × (fold next ls ≡ some r')
  fold-first r r' l ls h = elim (Option-cases (on_text ext auth r.domain r l)) [
    | inl e ↦ absurd (let k : none ≡ some r' = rw e at h in cc)
    | inr (next, e) ↦ (next, e, rw e at h)
  ]

  pub reads :
      (n : ℕ) (r r' : R) (l : Bytes) (ls : List Bytes) (more : List Incoming) (w : World)
      → All IsLine (l ∷ ls)
      → All (λ line. length line ≤ line_limit) (sent (l ∷ ls))
      → fold r (l ∷ ls) ≡ some r'
      → length ls < n
      → (read_response_within ext auth n false r
          (record w { incoming = map arrives (sent (l ∷ ls)) ++ more })).0
        ≡ returned (finished ext auth r' r'.domain)
  unfolding read_response_within read_up_to receive_up_to receive_from on_response
  reads zero r r' l ls more w h short e less = absurd (omega arith)
  reads (suc n) r r' l [] more w h short e less =
      let (next, f, g) = fold-first r r' l [] e in
      let same_end : next ≡ r' = cc in
      rw (within _ (short.0), on_response_line-IsLine b' ' true r next l refl (h.0) f, same_end)
        (stops n r' _)
  reads (suc n) r r' l (m ∷ ls) more w h short e less =
      let (next, f, g) = fold-first r r' l (m ∷ ls) e in
      rw (within _ (short.0), on_response_line-IsLine b'-' false r next l refl (h.0) f)
        (reads n next r' m ls more (record w { buffered = false }) (h.1) (short.1) g (omega arith))
