-- ===== src/Imap/Queue.antt =====
-- crates/imap/src/server/queue.rs: the commands in progress, and the channel on which their results
-- arrive. The channel is tokio's `mpsc`, which is not part of the repository: what each look into it
-- finds is taken from a list. The queue keeps a sender itself, so the channel is never closed.
use brev.Base.{Bool, true, false, Option, none, some, List, [], ◌∷◌, same, if◌then◌else◌}
use brev.Io.{Outcome, Async, returned, stalled, panicked}
use brev.Imap.Response.{Tag}
use brev.Imap.Command.{CommandName}

-- A hash map with its keys once each.
abbrev pub Commands : Type 0
Commands = List (Tag × CommandName)

-- `HashMap::insert`, whose old value only goes to the log, and `HashMap::remove`.
unfoldable pub put_command : Tag → CommandName → Commands → Commands
unfolding same
put_command tag name [] = (tag, name) ∷ []
put_command tag name ((t, n) ∷ rest) =
    if same t tag then (tag, name) ∷ rest else (t, n) ∷ put_command tag name rest

unfoldable pub remove_command : Tag → Commands → Option Commands
unfolding same
remove_command tag [] = none
remove_command tag ((t, n) ∷ rest) =
    let later = remove_command tag rest in
    if same t tag then some rest else elim later [ none ↦ none | some c ↦ some ((t, n) ∷ c) ]

module _ (R : Type 0) where
  -- `Payload`, behind its tag.
  pub data Delivery : Type 0 where
    delivered : Tag → R → Delivery
    nothing : Delivery

  pub record Queue : Type 0 where
    pub commands : Commands
    pub rx : List Delivery

  abbrev pub must_wait_before : Queue → CommandName → Bool
  must_wait_before q name = elim q.commands [ [] ↦ false | c ∷ rest ↦ true ]

  unfoldable pub insert : Tag → CommandName → Queue → Queue
  unfolding put_command
  insert tag name q = record q { commands = put_command tag name q.commands }

  -- The assertion that the tag is known, on what `remove` gives.
  unfoldable pub known :
      {A : Type 0} → A → List Delivery → Option Commands → Queue → Outcome A × Queue
  known a rest none q = (panicked, record q { rx = rest })
  known a rest (some commands) q = (returned a, record { commands = commands; rx = rest })

  unfoldable pub ready_from : List Delivery → Async Queue (Option (Tag × R))
  unfolding known remove_command
  ready_from [] q = (returned none, q)
  ready_from (nothing ∷ rest) q = (returned none, record q { rx = rest })
  ready_from (delivered tag r ∷ rest) q =
      known (some (tag, r)) rest (remove_command tag q.commands) q

  unfoldable pub ready : Async Queue (Option (Tag × R))
  unfolding ready_from
  ready q = ready_from q.rx q

  unfoldable pub wait_from : List Delivery → Async Queue (Tag × R)
  unfolding known remove_command
  wait_from [] q = (stalled, record q { rx = [] })
  wait_from (nothing ∷ rest) q = wait_from rest q
  wait_from (delivered tag r ∷ rest) q = known (tag, r) rest (remove_command tag q.commands) q

  unfoldable pub wait : Async Queue (Tag × R)
  unfolding wait_from
  wait q = wait_from q.rx q
