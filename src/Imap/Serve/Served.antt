-- ===== src/Imap/Serve/Served.antt =====
-- What holds in every state of the server.
use brev.Base.{◌≡◌, ◌≢◌, refl, Bool, Option, some, List, [], ◌∷◌, arith, length, ◌<◌, ◌≤◌}
use brev.Io.{World, returned, stalled, panicked}
use brev.Io.Laws.{Triple-ran}
use brev.Imap.Response.{Tag}
use brev.Imap.Command.{CommandName}
use brev.Imap.Queue.{delivered, ready, wait, ready_from, wait_from, known, Queue}
use brev.Imap.Ops.{Operation, operation_tag, operation_name, OpResult}
use brev.Imap.Operations.{handle_operation}
use brev.Imap.Session.{Environment, Payload, ImapSession}
use brev.Imap.Session.Loop.{next_op}
use brev.Imap.Session.Examine.{remove_command_self}
use brev.Imap.Session.Rules.{IsValid}
use brev.Imap.Session.Invariant.{next_op-HandsOut}
use brev.Imap.Serve.{
  Takes, first, later, send, Server, Completes, Step, handed, served, dropped, disabled,
  new_session, start, Reach, starts, then_step, capacity,
}
use brev.Imap.Serve.Tracked.{Tracked, quiet, answered, running, with_op, next_op-Tracked}

Takes-nil : {op : Operation} {left : List Operation} → Takes op [] left → ⊥
Takes-nil h = elim h [ ]

module _ (e : Environment) where
  abbrev R : Type 0
  R = OpResult e.attributes

  -- The session is valid, and the command in progress, if any, has its operation or its result.
  pub record IsServed (s : Server e) : Type 0 where
    pub valid : IsValid e s.session
    pub tracked : Tracked e s.futures s.session.queue

  -- What an operation sends bears the tag of its command.
  handle_operation-tag :
      (op : Operation) (p : Payload e)
      → handle_operation e.attributes op ≡ some p
      → p.0 ≡ operation_tag op
  unfolding handle_operation
  handle_operation-tag (Operation.select mailbox read_only tag) p h = cc
  handle_operation-tag (Operation.list reference mailbox tag) p h = cc
  handle_operation-tag (Operation.fetch chosen is_uid set wanted tag) p h = cc
  handle_operation-tag (Operation.create mailbox tag) p h = cc

  -- The result of the operation that completes is the one that its command waits for.
  Tracked-send :
      (fs left : List Operation) (p : Payload e) (s : ImapSession e)
      → Completes e fs p left
      → Tracked e fs s.queue
      → Tracked e left (send e p s).queue
  unfolding send
  Tracked-send fs left p s c t = sent p c.takes t (handle_operation-tag c.op p c.gives)
    where
      sent :
          {op : Operation} {fs left : List Operation} (p : Payload e)
          → Takes op fs left
          → Tracked e fs s.queue
          → p.0 ≡ operation_tag op
          → Tracked e left (send e p s).queue
      sent (tag, r) first (running h) k = rw (h, k) (answered refl)
      sent p (later none_left) (running h) k = absurd (Takes-nil none_left)

  IsValid-send : (p : Payload e) (s : ImapSession e) → IsValid e s → IsValid e (send e p s)
  unfolding send
  IsValid-send p s v = record { accepted = v.accepted; single = v.single }

  returned-Served :
      {fs : List Operation} {r : Option Operation} {s t : ImapSession e}
      → next_op e s ≡ (returned r, t)
      → IsServed (record { session = s; futures = fs })
      → IsServed (record { session = t; futures = with_op e r fs })
  returned-Served {fs} h v = record {
    valid = (Triple-ran (next_op-HandsOut e) h v.valid).valid;
    tracked = Triple-ran (next_op-Tracked e fs) h v.tracked;
  }

  stalled-Served :
      {fs : List Operation} {s t : ImapSession e}
      → next_op e s ≡ (stalled, t)
      → IsServed (record { session = s; futures = fs })
      → IsServed (record { session = t; futures = fs })
  stalled-Served {fs} h v = record {
    valid = Triple-ran (next_op-HandsOut e) h v.valid;
    tracked = Triple-ran (next_op-Tracked e fs) h v.tracked;
  }

  send-Served :
      {p : Payload e} {fs left : List Operation} (s : ImapSession e)
      → Completes e fs p left
      → IsServed (record { session = s; futures = fs })
      → IsServed (record { session = send e p s; futures = left })
  send-Served {p} {fs} {left} s c v = record {
    valid = IsValid-send p s v.valid;
    tracked = Tracked-send fs left p s c v.tracked;
  }

  Step-IsServed : {s t : Server e} → Step e s t → IsServed s → IsServed t
  Step-IsServed (handed h) v = returned-Served h v
  Step-IsServed {s} (served c l) v = send-Served s.session c v
  Step-IsServed (dropped {t = t} h c l) v = send-Served t c (stalled-Served h v)
  Step-IsServed (disabled {t = t} h c l) v = send-Served t c (returned-Served h v)

  start-IsServed : (w : World) (tls : Bool) → IsServed (start e w tls)
  unfolding start new_session
  start-IsServed w tls = record {
    valid = record { accepted = λ who h. cc; single = omega arith };
    tracked = quiet refl;
  }

  -- In every state that the server reaches on a connection, whatever the client sends, however the two
  -- branches of `select!` are polled and whichever future completes first: the session is valid, and a
  -- command in progress has either its operation among the futures or its result, under its tag, in
  -- the channel, never both; no other operation runs, and no other result is in the channel.
  pub Reach-IsServed : {w : World} {tls : Bool} {s : Server e} → Reach e w tls s → IsServed s
  Reach-IsServed {w} {tls} starts = start-IsServed w tls
  Reach-IsServed (then_step r st) = Step-IsServed st (Reach-IsServed r)

  -- A result that arrives is of a known command.
  wait-known :
      {tag : Tag} {n : CommandName} {r : R} (q : Queue R)
      → q ≡ record { commands = (tag, n) ∷ []; rx = delivered tag r ∷ [] }
      → ((ready R q).0 ≢ panicked) × ((wait R q).0 ≢ panicked)
  unfolding ready wait ready_from wait_from known
  wait-known {tag} {n} q h = rw (h, remove_command_self e tag n) (λ k. cc, λ k. cc)

  Tracked-known :
      {fs : List Operation} {q : Queue R}
      → Tracked e fs q
      → ((ready R q).0 ≢ panicked) × ((wait R q).0 ≢ panicked)
  unfolding ready wait
  Tracked-known {q = q} (answered h) = wait-known q h
  Tracked-known (quiet h) = rw h (unfold ready_from wait_from in (λ k. cc, λ k. cc))
  Tracked-known (running h) = rw h (unfold ready_from wait_from in (λ k. cc, λ k. cc))

  room : {fs : List Operation} {q : Queue R} → Tracked e fs q → length q.rx < capacity
  room (quiet h) = rw h (omega arith)
  room (answered h) = rw h (omega arith)
  room (running h) = rw h (omega arith)

  one_future : {fs : List Operation} {q : Queue R} → Tracked e fs q → length fs ≤ 1
  one_future (quiet h) = omega arith
  one_future (answered h) = omega arith
  one_future (running h) = omega arith

  -- In every state of the server, a look into the channel and a wait for it do not panic: a result
  -- that arrives is of a known command. At most one operation runs, and the channel has room for what
  -- it sends.
  pub queue_never_panics :
      {w : World} {tls : Bool} {s : Server e}
      → Reach e w tls s
      → ((ready R s.session.queue).0 ≢ panicked)
        × ((wait R s.session.queue).0 ≢ panicked)
        × (length s.futures ≤ 1)
        × (length s.session.queue.rx < capacity)
  queue_never_panics r =
      let t = (Reach-IsServed r).tracked in
      ((Tracked-known t).0, (Tracked-known t).1, one_future t, room t)

  -- The operations that src/operations.rs has written.
  abbrev pub HasHandler : Operation → Type 0
  HasHandler (Operation.select mailbox read_only tag) = Unit
  HasHandler (Operation.list reference mailbox tag) = Unit
  HasHandler (Operation.fetch chosen is_uid set wanted tag) = ⊥
  HasHandler (Operation.create mailbox tag) = ⊥

  handle_operation-gives :
      (op : Operation)
      → HasHandler op
      → (p : Payload e) × (handle_operation e.attributes op ≡ some p)
  unfolding handle_operation
  handle_operation-gives (Operation.select mailbox read_only tag) h = (_, refl)
  handle_operation-gives (Operation.list reference mailbox tag) h = (_, refl)
  handle_operation-gives (Operation.fetch chosen is_uid set wanted tag) h = absurd h
  handle_operation-gives (Operation.create mailbox tag) h = absurd h

  ready-send :
      {op : Operation} {fs : List Operation} (p : Payload e) (s : ImapSession e)
      → Tracked e (op ∷ fs) s.queue
      → p.0 ≡ operation_tag op
      → (fs ≡ [])
        × (ready R (send e p s).queue ≡ (returned (some p), record { commands = []; rx = [] }))
  unfolding send ready ready_from known
  ready-send {op} (tag, res) s (running h) k =
      (refl, rw (h, k, remove_command_self e (operation_tag op) (operation_name op)) refl)

  -- In every state of the server in which an operation runs that is LIST, SELECT or EXAMINE: no other
  -- operation runs, and the server can take a step in which it completes and sends its result, under
  -- its tag; a look into the channel then gives that result, and no command is in progress any more.
  pub running_completes :
      {w : World} {tls : Bool} (s : Server e) (op : Operation) (fs : List Operation)
      → Reach e w tls s
      → s.futures ≡ op ∷ fs
      → HasHandler op
      → (p : Payload e) × Step e s (record { session = send e p s.session; futures = fs })
        × (fs ≡ [])
        × (p.0 ≡ operation_tag op)
        × (ready R (send e p s.session).queue
            ≡ (returned (some p), record { commands = []; rx = [] }))
  running_completes s op fs r h k =
      let (p, gives) = handle_operation-gives op k in
      let t = (Reach-IsServed r).tracked in
      let same_tag = handle_operation-tag op p gives in
      let (alone, found) = ready-send p s.session (rw h at t) same_tag in
      (
        p,
        served (record { op = op; takes = rw h first; gives = gives }) (room t),
        alone,
        same_tag,
        found,
      )
