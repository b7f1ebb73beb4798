-- ===== src/Imap/Reader/Finishes.antt =====
-- `read_cmd` ends while the client closes the connection in the end: its fuel is enough.
use brev.Base.{ℕ, zero, suc, ◌<◌, ◌≤◌, Option, none, some, arith, length}
use brev.Flags.{Bitflags}
use brev.Io.{World, Io}
use brev.Io.Finishes.{
  Ended, Finishes, Finishes-pure, Finishes-bind, Finishes-after, Calm, Calm-more, Calm-zero,
}
use brev.Line.{ReadLine, line, eof}
use brev.Line.Finishes.{AfterLine, Finishes-read_line, Finishes-write_flush}
use brev.Nom.{Nom}
use brev.Imap.Capability.{capability_flags}
use brev.Imap.MailboxStatus.{item_flags}
use brev.Imap.Response.{tagged_to_string}
use brev.Imap.Command.{bad, invalid_utf8, TaggedCommand, Tagged, tagged, refused}
use brev.Imap.Command.Parse.{tagged_try_from}
use brev.Imap.Reader.{on_tagged, on_imap_line, read_tagged_within, read_tagged}

-- A command that is read has taken a line.
abbrev pub AfterRead : {A : Type 0} → ℕ → Option A → World → Type 0
AfterRead n none w = Unit
AfterRead zero (some c) w = ⊥
AfterRead (suc n) (some c) w = Calm n w

module _ (caps : Bitflags capability_flags) (items : Bitflags item_flags) (nom : Nom) where
  abbrev C : Type 0
  C = TaggedCommand caps items

  abbrev Reads : ℕ → Io (Option C) → Type 0
  Reads n io = Finishes (Calm n) io (AfterRead n)

  read_more : (m n : ℕ) (c : Option C) (w : World) → m ≤ n → AfterRead m c w → AfterRead n c w
  read_more m n none w l h = tt
  read_more zero n (some c) w l h = absurd h
  read_more (suc m) zero (some c) w l h = absurd (omega arith)
  read_more (suc m) (suc n) (some c) w l h = Calm-more h (omega arith)

  Finishes-on_tagged :
      {n : ℕ} (again : Io (Option C)) (t : Tagged caps items)
      → Reads n again
      → Finishes (Calm n) (on_tagged caps items nom again t) (AfterRead (suc n))
  unfolding on_tagged
  Finishes-on_tagged {n} again (tagged c) t = Finishes-pure (AfterRead (suc n)) (some c)
  Finishes-on_tagged {n} again (refused (bad res)) t =
      Finishes-bind (Finishes-write_flush (tagged_to_string res))
        (λ _. Finishes-after (AfterRead (suc n)) (λ c w. read_more n (suc n) c w (omega arith)) t)
  Finishes-on_tagged {n} again (refused invalid_utf8) t =
      Finishes-after (AfterRead (suc n)) (λ c w. read_more n (suc n) c w (omega arith)) t

  Finishes-on_imap_line :
      {n : ℕ} (again : Io (Option C)) (l : ReadLine)
      → Reads n again
      → Finishes (AfterLine (suc n) l) (on_imap_line caps items nom again l) (AfterRead (suc n))
  unfolding on_imap_line
  Finishes-on_imap_line again eof t = record { at = λ w h. tt }
  Finishes-on_imap_line again (line buf) t =
      Finishes-on_tagged again (tagged_try_from caps items nom buf) t

  Finishes-read_tagged_within :
      (fuel n : ℕ) → n < fuel → Reads n (read_tagged_within caps items nom fuel)
  unfolding read_tagged_within
  Finishes-read_tagged_within fuel zero less = record { at = λ w h. absurd (Calm-zero h) }
  Finishes-read_tagged_within zero (suc n) less = absurd (omega arith)
  Finishes-read_tagged_within (suc fuel) (suc n) less = Finishes-bind (Finishes-read_line n) (λ l.
      Finishes-on_imap_line (read_tagged_within caps items nom fuel) l
        (Finishes-read_tagged_within fuel n (omega arith)))

  pub Finishes-read_tagged : (n : ℕ) → Reads n (read_tagged caps items nom)
  unfolding read_tagged
  Finishes-read_tagged n = record { at = λ w h. started n w h }
    where
      started :
          (n : ℕ) (w : World)
          → Calm n w
          → Ended
              (AfterRead n)
              (read_tagged_within caps items nom (suc (length w.incoming)) w).0
              (read_tagged_within caps items nom (suc (length w.incoming)) w).1
      started n w h =
          (Finishes-after (AfterRead n) (λ c v. read_more (length w.incoming) n c v h.fewer)
              (Finishes-read_tagged_within (suc (length w.incoming)) (length w.incoming)
                (omega arith))).at
            w (record { prompt = h.prompt; closes = h.closes; fewer = omega arith })
