-- ===== src/Smtp/Ehlo/RoundTrip.antt =====
-- What a client reads of the answer to EHLO is what the server has offered.
use brev.Base.{
  suc, ◌≡◌, refl, ◌∙◌, none, some, List, [], ◌∷◌, ◌++◌, All, map, arith, length, Bytes, codes, same,
  ◌≤◌,
}
use brev.Base.Trim.{IsLine}
use brev.Flags
use brev.Flags.{Bitflags, names, blank_names, from_iter_onto, from_iter, named_in}
use brev.Flags.RoundTrip.{from_iter-names}
use brev.Io.{World, Incoming, returned}
use brev.Smtp.Ehlo.{
  Extension, AuthFlag, extension_name, auth_name, extensions, auths, size_line, Response,
  auth_to_string, to_string,
}
use brev.Smtp.Ehlo.Read.{
  response, on_text, finished, nothing_read, read_response, line_limit, reads_left,
}
use brev.Smtp.Ehlo.Folds.{R, state, mechanisms_of, fold-names, fold-size, fold-auth}
use brev.Smtp.Ehlo.Lines.{IsLine-append, sent, arrives, fold, reads}
use brev.Smtp.Ehlo.Texts.{
  cut, FitsU64, cut-domain, length-sent, append_ne_nil, extensions-WellNamed, auths-WellNamed,
  blank_names-IsLine, size_line-IsLine, extension_names-IsLine,
}

module _ (ext : Bitflags extensions) (auth : Bitflags auths) where
  -- The texts of the lines of a response.
  abbrev tail_of : Response ext auth → List Bytes
  tail_of r =
      map extension_name (ext.iter r.offered)
      ++ (size_line r.size
          ++ (codes "AUTH" ++ blank_names (map auth_name (auth.iter r.mechanisms))) ∷ [])

  abbrev texts : Response ext auth → List Bytes
  texts r = r.domain ∷ tail_of r

  -- What is read of a response.
  abbrev read_back : Response ext auth → R ext auth
  read_back r =
      state ext auth r.domain (from_iter extensions ext (names extensions ext r.offered)) r.size
        (mechanisms_of ext auth (auth.iter r.mechanisms))

  -- The server has a domain of printable ASCII that does not end in a blank, and a size within 64
  -- bits; no line of its answer, with its line break, is longer than 1000 bytes.
  pub record IsOffer (r : Response ext auth) : Type 0 where
    pub domain : IsLine r.domain
    pub size : FitsU64 r.size
    pub short : All (λ line. length line ≤ 1000) (cut (to_string ext auth r))

  texts-IsLine : (r : Response ext auth) → IsOffer r → All IsLine (texts r)
  texts-IsLine r h = (
    h.domain,
    extension_names-IsLine (ext.iter r.offered) _ (
        size_line-IsLine r.size _ (
          IsLine-append (codes "AUTH") (blank_names (map auth_name (auth.iter r.mechanisms)))
              (record { prints = refl; visible = refl })
              (blank_names-IsLine (auth.iter r.mechanisms)),
          tt,
        )),
  )

  fold-texts :
      (r : Response ext auth)
      → IsOffer r
      → fold ext auth (nothing_read ext auth) (texts r) ≡ some (read_back r)
  unfolding on_text from_iter names
  fold-texts r h =
      rw
        (
          fold-names ext auth (ext.iter r.offered) r.domain ext.empty none auth.empty _,
          fold-size ext auth r.size r.domain _ auth.empty _ h.size,
        )
        (fold-auth ext auth (auth.iter r.mechanisms) r.domain _ r.size auth.empty)

  cut-to_string : (r : Response ext auth) → IsOffer r → cut (to_string ext auth r) ≡ sent (texts r)
  unfolding to_string names auth_to_string
  cut-to_string r h =
      let lines = texts-IsLine r h in
      cut-domain r.domain _ (lines.0) (lines.1) (
        append_ne_nil (map extension_name (ext.iter r.offered)) _
          (append_ne_nil (size_line r.size) _ (λ z. cc)))

  read_sent :
      (r : R ext auth) (d : Bytes) (tail : List Bytes) (more : List Incoming) (w : World)
      → All IsLine (d ∷ tail)
      → All (λ line. length line ≤ line_limit) (sent (d ∷ tail))
      → fold ext auth (nothing_read ext auth) (d ∷ tail) ≡ some r
      → (read_response ext auth (record w { incoming = map arrives (sent (d ∷ tail)) ++ more })).0
        ≡ returned (finished ext auth r r.domain)
  unfolding read_response
  read_sent r d tail more w h short e =
      reads ext auth (suc (reads_left (map arrives (sent (d ∷ tail)) ++ more)))
        (nothing_read ext auth) r d tail more w h short e (omega (arith, length-sent d tail more))

  contains-mechanisms_of :
      (law : Flags.Lawful auths auth) (fs : List AuthFlag) (g : AuthFlag)
      → law.contains (mechanisms_of ext auth fs) g
        ≡ law.contains (from_iter auths auth (map auth_name fs)) g
  unfolding from_iter from_iter_onto named_in same
  contains-mechanisms_of law [] g = rw (law.contains-union, law.contains-empty) refl
  contains-mechanisms_of law (f ∷ fs) g = refl

  -- A client that reads the server's answer to EHLO, line by line, gets the domain, the size, and sets
  -- with the extensions and the mechanisms that the server has offered, and no others. The domain is
  -- printable ASCII that does not end in a blank, the size is within 64 bits, and no line of the answer,
  -- with its line break, is longer than 1000 bytes.
  pub read_response-to_string :
      (law : Flags.Lawful extensions ext) (law' : Flags.Lawful auths auth) (r : Response ext auth)
      (w : World) (more : List Incoming)
      → IsOffer r
      → (back : Response ext auth) × ((read_response ext auth
            (record w { incoming = map arrives (cut (to_string ext auth r)) ++ more })).0
          ≡ returned (response back))
        × (back.domain ≡ r.domain)
        × (back.size ≡ r.size)
        × ((f : Extension) → law.contains back.offered f ≡ law.contains r.offered f)
        × ((f : AuthFlag) → law'.contains back.mechanisms f ≡ law'.contains r.mechanisms f)
  unfolding finished names
  read_response-to_string law law' r w more h = (
    record {
      domain = r.domain;
      offered = (read_back r).offered;
      size = r.size;
      mechanisms = mechanisms_of ext auth (auth.iter r.mechanisms);
    },
    rw (cut-to_string r h) (
        read_sent (read_back r) r.domain (tail_of r) more w (texts-IsLine r h)
          (rw (cut-to_string r h) at h.short) (fold-texts r h)),
    refl,
    refl,
    λ f. from_iter-names extensions ext law extensions-WellNamed r.offered f,
    λ f.
        contains-mechanisms_of law' (auth.iter r.mechanisms) f
        ∙ from_iter-names auths auth law' auths-WellNamed r.mechanisms f,
  )
