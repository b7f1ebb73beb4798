-- ===== src/Imap/Session/Loop.antt =====
-- crates/imap/src/server/session.rs: the results that the session passes on, and its loop.
use brev.Base.{ℕ, zero, suc, Bool, true, false, Option, none, some, length, codes}
use brev.Io.{returned, pure, fail, stall, panic, unexpected_eof, ◌>>=◌, ◌>>◌}
use brev.Imap.Response.{Tag, with_tag}
use brev.Imap.Command.{CommandName, Command, TaggedCommand, name}
use brev.Imap.Queue.{ready, wait, insert, must_wait_before}
use brev.Imap.Ops.{
  Operation, operation_tag, operation_name, of_examine, of_list, of_fetch, OpResult, SelectResult,
  done, into_tagged_response, select_to_string,
}
use brev.Imap.Ops.{OpResponse}
use brev.Imap.Sequence.{SequenceSet}
use brev.Imap.Fetch.{FetchItems}
use brev.Imap.Reader.{read_tagged}
use brev.Imap.Session.{
  Environment, State, not_authenticated, logout, authenticated, selected, Payload, Act, on_wire,
  on_queue, become, greet, respond, say_ok, say_bad, respond_with_tag, handle_capability,
  handle_logout, handle_starttls, handle_authenticate, handle_login, handle_enable,
}

module _ (e : Environment) where
  open e use {nom, caps, items, attributes}

  -- The `Select` arm of `consume_ready`, on the state; the last case is `unreachable!()`.
  unfoldable pub consume_select : Tag → SelectResult attributes → State → Act e (Unit {0})
  unfolding respond_with_tag
  consume_select tag r (authenticated who) = do
    become e
        (selected (record { mailbox = r.mailbox.name; read_only = r.read_only; identity = who }))
    respond_with_tag e (some (select_to_string attributes r tag))
  consume_select tag r _ = panic

  unfoldable pub consume_ready : Payload e → Act e (Unit {0})
  unfolding consume_select respond_with_tag respond
  consume_ready (tag, done (OpResponse.select r)) = λ s. consume_select tag r s.state s
  consume_ready (tag, done OpResponse.fetch) =
      respond_with_tag e (into_tagged_response attributes OpResponse.fetch tag)
  consume_ready (tag, done OpResponse.create) =
      respond_with_tag e (into_tagged_response attributes OpResponse.create tag)
  consume_ready (tag, done (OpResponse.list found)) =
      respond_with_tag e (into_tagged_response attributes (OpResponse.list found) tag)
  consume_ready (tag, OpResult.failed err) = respond e (with_tag err tag)

  unfoldable pub on_ready : Act e (Unit {0}) → Option (Payload e) → Act e (Unit {0})
  unfolding consume_ready
  on_ready again none = pure tt
  on_ready again (some payload) = do consume_ready payload; again

  -- The first loop of `next_cmd`. Each turn takes a look into the channel; the fuel is one more than
  -- the looks that find something.
  unfoldable pub consume_all_within : ℕ → Act e (Unit {0})
  unfolding on_queue on_ready ready
  consume_all_within zero = stall
  consume_all_within (suc n) =
      let again = consume_all_within n in
      do r ← on_queue e (ready (OpResult attributes)); on_ready again r

  -- The second loop, on whether the queue must be waited for. Each turn ends a command of the queue;
  -- the fuel is one more than these.
  unfoldable pub wait_on : Act e (Unit {0}) → Bool → Act e (Unit {0})
  unfolding on_queue consume_ready wait
  wait_on again false = pure tt
  wait_on again true = do
    payload ← on_queue e (wait (OpResult attributes))
    consume_ready payload
    again

  unfoldable pub wait_all_within : ℕ → CommandName → Act e (Unit {0})
  unfolding wait_on
  wait_all_within zero next = stall
  wait_all_within (suc n) next =
      let again = wait_all_within n next in
      λ s. wait_on again (must_wait_before (OpResult attributes) s.queue next) s

  unfoldable pub on_read : Option (TaggedCommand caps items) → Act e (TaggedCommand caps items)
  unfolding wait_all_within name
  on_read none = fail unexpected_eof
  on_read (some c) = do
    λ s. wait_all_within (suc (length s.queue.commands)) (name caps items c.command) s
    pure c

  unfoldable pub next_cmd : Act e (TaggedCommand caps items)
  unfolding consume_all_within on_wire read_tagged on_read
  next_cmd = do
    λ s. consume_all_within (suc (length s.queue.rx)) s
    c ← on_wire e (read_tagged caps items nom)
    on_read c

  -- `operation!`: the command goes into the queue, and the operation is returned.
  unfoldable pub hand_out : Operation → Act e (Option Operation)
  unfolding on_queue insert
  hand_out op s = (
    returned (some op),
    record s {
      queue = insert (OpResult attributes) (operation_tag op) (operation_name op) s.queue;
    },
  )

  -- The `Select` arm of `next_op`: in a selected state it does nothing.
  unfoldable pub handle_select : Tag → State → Act e (Option Operation)
  unfolding respond
  handle_select tag not_authenticated = do say_bad e tag (codes "not authenticated"); pure none
  handle_select tag (authenticated who) = panic
  handle_select tag (selected chosen) = pure none
  handle_select tag logout = panic

  unfoldable pub handle_fetch :
      Tag → Bool → SequenceSet → FetchItems → State → Act e (Option Operation)
  unfolding respond hand_out
  handle_fetch tag is_uid set wanted (selected chosen) =
      hand_out (of_fetch chosen is_uid set wanted tag)
  handle_fetch tag is_uid set wanted _ = do say_bad e tag (codes "not in selected state"); pure none

  -- One arm of the `match` in `next_op`. `none` is a turn of the loop.
  unfoldable pub handle : Tag → Command caps items → Act e (Option Operation)
  unfolding handle_capability respond handle_logout handle_starttls handle_authenticate handle_login
      handle_enable handle_select handle_fetch hand_out
  handle tag Command.capability = do handle_capability e tag; pure none
  handle tag Command.noop = do say_ok e tag (codes "NOOP completed"); pure none
  handle tag Command.logout = do handle_logout e tag; pure none
  handle tag Command.starttls = do handle_starttls e tag; pure none
  handle tag (Command.authenticate mechanism initial) = do
    (λ s. handle_authenticate e tag mechanism initial s.state s)
    pure none
  handle tag (Command.login username password) = do
    (λ s. handle_login e tag username password s.state s)
    pure none
  handle tag (Command.enable wanted) = do handle_enable e tag wanted; pure none
  handle tag (Command.select mailbox) = λ s. handle_select tag s.state s
  handle tag (Command.examine mailbox) = hand_out (of_examine mailbox tag)
  handle tag (Command.list reference mailbox) = hand_out (of_list reference mailbox tag)
  handle tag (Command.fetch is_uid set wanted) = λ s. handle_fetch tag is_uid set wanted s.state s
  handle tag _ = panic

  abbrev pub is_logout : State → Bool
  is_logout logout = true
  is_logout _ = false

  unfoldable pub after_handle :
      Act e (Option Operation) → Option Operation → Act e (Option Operation)
  after_handle again none = again
  after_handle again (some op) = pure (some op)

  -- A turn of the loop, on whether the client has logged out.
  unfoldable pub turn : Act e (Option Operation) → Bool → Act e (Option Operation)
  unfolding next_cmd handle after_handle
  turn again true = pure none
  turn again false = do c ← next_cmd; r ← handle c.tag c.command; after_handle again r

  -- Each turn reads a line at least, but the last, which finds the client logged out; the fuel is two
  -- more than the answers that the environment will give.
  unfoldable pub loop_within : ℕ → Act e (Option Operation)
  unfolding turn
  loop_within zero = stall
  loop_within (suc n) = let again = loop_within n in λ s. turn again (is_logout s.state) s

  unfoldable pub greet_once : Bool → Act e (Unit {0})
  unfolding greet
  greet_once true = pure tt
  greet_once false = do greet e; (λ s. (returned tt, record s { greeted = true }))

  unfoldable pub next_op : Act e (Option Operation)
  unfolding greet_once loop_within
  next_op = do
    (λ s. greet_once s.greeted s)
    λ s. loop_within (suc (suc (length s.connection.incoming))) s
