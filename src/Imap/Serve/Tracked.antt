-- ===== src/Imap/Serve/Tracked.antt =====
-- In every state of the server each command in progress has its operation or its result.
use brev.Base.{◌≡◌, refl, ap, Option, none, some, List, [], ◌∷◌}
use brev.Io.Laws.{Post, Triple}
use brev.Imap.Response.{Tag}
use brev.Imap.Command.{CommandName}
use brev.Imap.Queue.{
  put_command, delivered, known, ready_from, ready, wait_from, wait, insert, Queue,
}
use brev.Imap.Ops.{Operation, operation_tag, operation_name, OpResult}
use brev.Imap.Session.{Environment, ImapSession, on_queue}
use brev.Imap.Session.Loop.{next_op}
use brev.Imap.Session.Examine.{remove_command_self}
use brev.Imap.Session.Rules.{Frame}
use brev.Imap.Session.Awaits.{Awaits, next_cmd-Awaits}
use brev.Imap.Session.Turns.{Turns, inserted, next_op-Turns}

module _ (e : Environment) where
  abbrev R : Type 0
  R = OpResult e.attributes

  -- The queue, with the operations whose futures run.
  pub data Tracked : List Operation → Queue R → Type 0 where
    -- No command is in progress.
    quiet : {q : Queue R} → q ≡ record { commands = []; rx = [] } → Tracked [] q
    -- The result of the command in progress is in the channel.
    answered :
        {tag : Tag} {n : CommandName} {r : R} {q : Queue R}
        → q ≡ record { commands = (tag, n) ∷ []; rx = delivered tag r ∷ [] }
        → Tracked [] q
    -- The operation of the command in progress runs.
    running :
        {op : Operation} {q : Queue R}
        → q ≡ record { commands = (operation_tag op, operation_name op) ∷ []; rx = [] }
        → Tracked (op ∷ []) q

  abbrev Holds : List Operation → ImapSession e → Type 0
  Holds fs s = Tracked fs s.queue

  -- No command is in progress, and no future runs.
  abbrev Quiet : List Operation → ImapSession e → Type 0
  Quiet fs s = (fs ≡ []) × (s.queue ≡ record { commands = []; rx = [] })

  Quiet-Holds : {fs : List Operation} (s : ImapSession e) → Quiet fs s → Holds fs s
  Quiet-Holds s h = rw (h.0) (quiet (h.1))

  Holds-Frame : (fs : List Operation) → Frame e (Holds fs) (Holds fs)
  Holds-Frame fs = record {
    detached = λ s w h. h;
    becomes = λ s st a h. h;
    selects = λ s chosen k h. h;
    ended = λ s h. h;
  }

  Quiet-Frame : (fs : List Operation) → Frame e (Quiet fs) (Holds fs)
  Quiet-Frame fs = record {
    detached = λ s w h. h;
    becomes = λ s st a h. h;
    selects = λ s chosen k h. h;
    ended = Quiet-Holds;
  }

  Holds-ready :
      (fs : List Operation) → Triple (Holds fs) (on_queue e (ready R)) (λ _. Holds fs) (Holds fs)
  unfolding on_queue ready
  Holds-ready fs = record { at = λ s h. looked s fs h }
    where
      looked :
          (s : ImapSession e) (fs : List Operation)
          → Holds fs s
          → Post
              (λ _. Holds fs)
              (Holds fs)
              (ready_from R s.queue.rx s.queue).0
              (record s { queue = (ready_from R s.queue.rx s.queue).1 })
      looked s _ (quiet h) = rw h (unfold ready_from in quiet refl)
      looked s _ (running h) = rw h (unfold ready_from in running refl)
      looked s _ (answered {tag} {n} {r} h) =
          rw h (unfold ready_from known in rw (remove_command_self e tag n) (quiet refl))

  Holds-wait :
      (fs : List Operation) → Triple (Holds fs) (on_queue e (wait R)) (λ _. Holds fs) (Holds fs)
  unfolding on_queue wait
  Holds-wait fs = record { at = λ s h. waited s fs h }
    where
      waited :
          (s : ImapSession e) (fs : List Operation)
          → Holds fs s
          → Post
              (λ _. Holds fs)
              (Holds fs)
              (wait_from R s.queue.rx s.queue).0
              (record s { queue = (wait_from R s.queue.rx s.queue).1 })
      waited s _ (quiet h) = rw h (unfold wait_from in quiet refl)
      waited s _ (running h) = rw h (unfold wait_from in running refl)
      waited s _ (answered {tag} {n} {r} h) =
          rw h (unfold wait_from known in rw (remove_command_self e tag n) (quiet refl))

  Holds-settled :
      (fs : List Operation) (s : ImapSession e) → Holds fs s → s.queue.commands ≡ [] → Quiet fs s
  Holds-settled _ s (quiet h) k = (refl, h)
  Holds-settled _ s (answered h) k = absurd (let c = ap (λ (q : Queue R). q.commands) h in cc)
  Holds-settled _ s (running h) k = absurd (let c = ap (λ (q : Queue R). q.commands) h in cc)

  Holds-Awaits : (fs : List Operation) → Awaits e (Holds fs) (Quiet fs) (Holds fs)
  Holds-Awaits fs = record {
    frame = Holds-Frame fs;
    looks = Holds-ready fs;
    waits = Holds-wait fs;
    settled = Holds-settled fs;
  }

  -- The operations after a call of `next_op`.
  abbrev pub with_op : Option Operation → List Operation → List Operation
  with_op none fs = fs
  with_op (some op) fs = op ∷ fs

  inserted-Holds :
      (fs : List Operation) (op : Operation) (s : ImapSession e)
      → Quiet fs s
      → Holds (op ∷ fs) (inserted e op s)
  unfolding insert put_command
  inserted-Holds fs op s h = rw (h.0, h.1) (running refl)

  Holds-Turns :
      (fs : List Operation) → Turns e (Holds fs) (Quiet fs) (Holds fs) (λ r. Holds (with_op r fs))
  Holds-Turns fs = record {
    frame = Quiet-Frame fs;
    waits = Holds-Frame fs;
    greets = λ s h. h;
    begins = λ s h. h;
    left = λ s h. h;
    next = next_cmd-Awaits e (Holds-Awaits fs);
    turned = Quiet-Holds;
    handed = λ op s h f. inserted-Holds fs op s h;
  }

  -- A call of `next_op` keeps track of the operations whose futures run, and of the one that it returns.
  pub next_op-Tracked :
      (fs : List Operation)
      → Triple
          (λ s. Tracked fs s.queue)
          (next_op e)
          (λ r s. Tracked (with_op r fs) s.queue)
          (λ s. Tracked fs s.queue)
  next_op-Tracked fs = next_op-Turns e (Holds-Turns fs)
