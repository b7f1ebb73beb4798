-- ===== src/Smtp/Data/Bounds.antt =====
-- How much room `advance` needs. `poll_read` asks for five free bytes; one arm writes six.
use brev.Base.{ℕ, ◌<◌, ◌≡◌, refl, ◌≢◌, ◌↔◌, none, arith, dec_lt, length}
use brev.Smtp.Data.{ReadBuf, State, start, eof, cr_lf_dot_dot_cr, advance}
use brev.Smtp.Data.Pure.{restart, step}
use brev.Smtp.Data.Advance.{Does-advance}

-- The one arm that writes six bytes.
abbrev pub Overflows : State → ℕ → Type 0
Overflows s b = (s ≡ cr_lf_dot_dot_cr) × (b ≢ b'\n') × (b ≢ b'\r')

length-step_six : (s : State) (b : ℕ) → 5 < length (step s b).0 → Overflows s b
unfolding step restart
length-step_six start b h = absurd (ground arith)
length-step_six cr_lf_dot_dot_cr b h = (refl, ground arith, ground arith)
length-step_six _ b h = absurd (ground arith)

length-step-Overflows : (s : State) (b : ℕ) → Overflows s b → 5 < length (step s b).0
unfolding step restart
length-step-Overflows start b h = cc (h.0)
length-step-Overflows cr_lf_dot_dot_cr b h = ground arith
length-step-Overflows _ b h = cc (h.0)

module _ (r : ReadBuf) where
  open r use {Buf, remaining}

  -- With exactly the five free bytes that `poll_read` asks for, `advance` panics in `CrLfDotDotCr`
  -- at every byte but LF and CR, and nowhere else (`Eof` aside, where it always panics).
  pub advance_panics_iff :
      (s : State) (b : ℕ) (buf : Buf)
      → s ≢ eof
      → remaining buf ≡ 5
      → (advance r s b buf ≡ none) ↔ Overflows s b
  advance_panics_iff s b buf n h = (panics, overflows)
    where
      panics : advance r s b buf ≡ none → Overflows s b
      panics e = elim (dec_lt 5 (length (step s b).0)) [
        | yes six ↦ length-step_six s b six
        | no few ↦
            let (buf', done, w) = (Does-advance r s b buf n).fits (omega arith) in cc (e, done)
      ]

      overflows : Overflows s b → advance r s b buf ≡ none
      overflows o =
          (Does-advance r s b buf n).panics (omega (arith, h, length-step-Overflows s b o))
