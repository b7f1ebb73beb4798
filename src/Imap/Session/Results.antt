-- ===== src/Imap/Session/Results.antt =====
-- Looks into the queue keep a session valid.
use brev.Base.{suc, ◌≤◌, ◌≡◌, refl, Option, none, some, List, [], ◌∷◌, arith, length}
use brev.Io.Laws.{Post, Triple}
use brev.Imap.Response.{Tag}
use brev.Imap.Queue.{
  Commands, remove_command, Delivery, delivered, nothing, known, ready_from, ready, wait_from, wait,
}
use brev.Imap.Ops.{OpResult}
use brev.Imap.Session.{Environment, ImapSession, on_queue}
use brev.Imap.Session.Awaits.{Awaits, next_cmd-Awaits}
use brev.Imap.Session.Rules.{IsValid, IsIdle, IsValid-Frame}
use brev.Imap.Session.Loop.{next_cmd}

pub length-remove_command :
    (tag : Tag) (cs cs' : Commands)
    → remove_command tag cs ≡ some cs'
    → length cs ≡ suc (length cs')
unfolding remove_command
length-remove_command tag [] cs' h = cc
length-remove_command tag ((t, n) ∷ rest) [] h = ground (arith, length-remove_command tag rest)
length-remove_command tag ((t, n) ∷ rest) (c ∷ cs') h =
    ground (arith, length-remove_command tag rest cs')

nil_of_length : (cs : Commands) → length cs ≤ 0 → cs ≡ []
nil_of_length [] h = refl
nil_of_length (c ∷ cs) h = absurd (omega arith)

module _ (e : Environment) where
  abbrev R : Type 0
  R = OpResult e.attributes

  -- What the queue does is never more than to end commands.
  Post-known :
      {A : Type 0} (a : A) (rest : List (Delivery R)) (o : Option Commands) (s : ImapSession e)
      → ((cs : Commands) → o ≡ some cs → length cs ≤ 1)
      → IsValid e s
      → Post
          (λ _. IsValid e)
          (IsValid e)
          (known R a rest o s.queue).0
          (record s { queue = (known R a rest o s.queue).1 })
  unfolding known
  Post-known a rest none s h v = record { accepted = v.accepted; single = v.single }
  Post-known a rest (some cs) s h v = record { accepted = v.accepted; single = h cs refl }

  single_left :
      (tag : Tag) (cs : Commands)
      → length cs ≤ 1
      → (cs' : Commands) → remove_command tag cs ≡ some cs'
      → length cs' ≤ 1
  single_left tag cs h cs' k = omega (arith, length-remove_command tag cs cs' k)

  KeepsValid-ready : Triple (IsValid e) (on_queue e (ready R)) (λ _. IsValid e) (IsValid e)
  unfolding on_queue ready
  KeepsValid-ready = record { at = λ s v. looked s.queue.rx s v }
    where
      looked :
          (rx : List (Delivery R)) (s : ImapSession e)
          → IsValid e s
          → Post
              (λ _. IsValid e)
              (IsValid e)
              (ready_from R rx s.queue).0
              (record s { queue = (ready_from R rx s.queue).1 })
      looked [] s v = v
      looked (nothing ∷ rest) s v = record { accepted = v.accepted; single = v.single }
      looked (delivered tag r ∷ rest) s v =
          Post-known (some (tag, r)) rest (remove_command tag s.queue.commands) s
            (single_left tag s.queue.commands v.single) v

  KeepsValid-wait : Triple (IsValid e) (on_queue e (wait R)) (λ _. IsValid e) (IsValid e)
  unfolding on_queue wait
  KeepsValid-wait = record { at = λ s v. waited s.queue.rx s v }
    where
      waited :
          (rx : List (Delivery R)) (s : ImapSession e)
          → IsValid e s
          → Post
              (λ _. IsValid e)
              (IsValid e)
              (wait_from R rx s.queue).0
              (record s { queue = (wait_from R rx s.queue).1 })
      waited [] s v = record { accepted = v.accepted; single = v.single }
      waited (nothing ∷ rest) s v = waited rest s v
      waited (delivered tag r ∷ rest) s v =
          Post-known (tag, r) rest (remove_command tag s.queue.commands) s
            (single_left tag s.queue.commands v.single) v

  IsValid-Awaits : Awaits e (IsValid e) (IsIdle e) (IsValid e)
  IsValid-Awaits = record {
    frame = IsValid-Frame e;
    looks = KeepsValid-ready;
    waits = KeepsValid-wait;
    settled = λ s h i. record { accepted = h.accepted; idle = i };
  }

  -- When `next_cmd` returns a command, no other is in progress.
  pub next_cmd-IsIdle : Triple (IsValid e) (next_cmd e) (λ _. IsIdle e) (IsValid e)
  next_cmd-IsIdle = next_cmd-Awaits e IsValid-Awaits
