-- ===== src/Imap/Session/Invariant.antt =====
-- What a call of `next_op` guarantees, whatever the client sends and whatever results arrive.
use brev.Base.{◌≡◌, refl, Option, none, some, [], ◌∷◌, arith}
use brev.Io.Laws.{Triple}
use brev.Imap.Queue.{put_command, Queue, insert}
use brev.Imap.Ops.{Operation, operation_tag, operation_name, OpResult}
use brev.Imap.Session.{Environment, ImapSession}
use brev.Imap.Session.Loop.{next_op}
use brev.Imap.Session.Rules.{IsValid, IsIdle, IsIdle-IsValid, IsIdle-Frame, IsValid-Frame}
use brev.Imap.Session.Results.{next_cmd-IsIdle}
use brev.Imap.Session.Turns.{FitsState, inserted, Turns, next_op-Turns}

module _ (e : Environment) where
  -- After a turn: an operation that is handed out is the one command in progress.
  pub record HandsOut (r : Option Operation) (s : ImapSession e) : Type 0 where
    pub valid : IsValid e s
    pub handed :
        (op : Operation)
        → r ≡ some op
        → (s.queue.commands ≡ (operation_tag op, operation_name op) ∷ []) × FitsState e op s.state

  HandsOut-none : (s : ImapSession e) → IsValid e s → HandsOut none s
  HandsOut-none s v = record { valid = v; handed = λ op h. cc }

  put-idle :
      (q : Queue (OpResult e.attributes)) (op : Operation)
      → q.commands ≡ []
      → put_command (operation_tag op) (operation_name op) q.commands
        ≡ (operation_tag op, operation_name op) ∷ []
  unfolding put_command
  put-idle q op h = rw h refl

  inserted-HandsOut :
      (op : Operation) (s : ImapSession e)
      → IsIdle e s
      → FitsState e op s.state
      → HandsOut (some op) (inserted e op s)
  unfolding insert
  inserted-HandsOut op s h f =
      let one = put-idle s.queue op h.idle in
      record {
        valid = record { accepted = h.accepted; single = rw one (omega arith) };
        handed = λ op' p. let same : op ≡ op' = cc in rw (← same) (one, f);
      }

  HandsOut-Turns : Turns e (IsValid e) (IsIdle e) (IsValid e) HandsOut
  HandsOut-Turns = record {
    frame = IsIdle-Frame e;
    waits = IsValid-Frame e;
    greets = λ s h. record { accepted = h.accepted; single = h.single };
    begins = HandsOut-none;
    left = λ s h. h.valid;
    next = next_cmd-IsIdle e;
    turned = λ s h. HandsOut-none s (IsIdle-IsValid e s h);
    handed = inserted-HandsOut;
  }

  -- From a valid session, whatever the client sends, whatever results arrive and however the connection
  -- fails: a call of `next_op` leaves a valid session, where the client has no identity but one that
  -- the validator has accepted, and at most one command is in progress. The operation that it returns
  -- is that command, and a fetch is of the mailbox that is selected.
  pub next_op-HandsOut : Triple (IsValid e) (next_op e) HandsOut (IsValid e)
  next_op-HandsOut = next_op-Turns e HandsOut-Turns
