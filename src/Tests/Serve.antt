-- ===== src/Tests/Serve.antt =====
-- src/main.rs, `handle_imap`, at concrete inputs.
use brev.Base.{
  ◌≡◌, ◌≢◌, ◌≤◌, ◌<◌, refl, List, true, false, some, [], ◌∷◌, codes, length, trim_line,
  to_ascii_uppercase, to_upper, split_once,
}
use brev.Base.Utf8.{is_utf8}
use brev.Io.{World, returned, stalled, panicked}
use brev.Imap.Queue.{ready, wait}
use brev.Imap.Command.{Command, CommandName, tagged}
use brev.Imap.Command.Parse.{tagged_try_from}
use brev.Imap.Command.Names.{noop}
use brev.Imap.Command.RoundTrip.{bare, tagged_try_from-Writes}
use brev.Imap.Ops.{Operation, OpResult, done}
use brev.Imap.Operations.{list_operation, handle_operation}
use brev.Imap.Session.{ImapSession, Payload, authenticated}
use brev.Imap.Session.Loop.{next_op}
use brev.Imap.Serve.{
  Server, Completes, first, send, Step, Reach, starts, start, then_step, handed, new_session,
  capacity,
}
use brev.Imap.Serve.Served.{IsServed, Reach-IsServed, queue_never_panics, running_completes}
use brev.Imap.Serve.Dropped.{IsBusy, pipelined_is_lost}
use brev.Tests.Samples.{says, nom, nom-Lawful}
use brev.Tests.Imap.{environment}

abbrev examines : World
examines = says (codes "a EXAMINE INBOX" ∷ [])

examined :
    (t : ImapSession environment) × (next_op environment (new_session environment examines false)
      ≡ (returned (some (Operation.select (codes "INBOX") true (codes "a"))), t))
unfolding next_op new_session
examined = (_, refl)

-- The operation that is handed out.
abbrev op : Operation
op = Operation.select (codes "INBOX") true (codes "a")

abbrev after : Server environment
after = record { session = examined.0; futures = op ∷ [] }

after-Reach : Reach environment examines false after
unfolding start
after-Reach = then_step starts (handed (examined.1))

Reach-IsServed_example : IsServed environment after
Reach-IsServed_example = Reach-IsServed environment after-Reach

queue_never_panics_example :
    ((ready (OpResult environment.attributes) after.session.queue).0 ≢ panicked)
    × ((wait (OpResult environment.attributes) after.session.queue).0 ≢ panicked)
    × (length after.futures ≤ 1)
    × (length after.session.queue.rx < capacity)
queue_never_panics_example = queue_never_panics environment after-Reach

-- A client whose LIST is in progress and that has sent NOOP.
abbrev listing : Operation
listing = Operation.list [] (codes "*") (codes "a")

abbrev busy : Server environment
busy = record {
  session = record {
    connection = says (codes "b NOOP" ∷ []);
    state = authenticated (codes "bob");
    queue = record { commands = (codes "a", CommandName.list) ∷ []; rx = [] };
    greeted = true;
    tls = false;
  };
  futures = listing ∷ [];
}

list_in_progress : IsBusy environment busy.session
list_in_progress = record {
  tag = codes "a";
  command = CommandName.list;
  busy = refl;
  greets = refl;
  stays = refl;
}

abbrev listed : Payload environment
listed = (codes "a", done (list_operation environment.attributes))

listing-Completes : Completes environment busy.futures listed []
unfolding handle_operation
listing-Completes = record { op = listing; takes = first; gives = refl }

noop_parsed :
    tagged_try_from environment.caps environment.items nom (trim_line (codes "b NOOP\r\n"))
    ≡ tagged (record { tag = codes "b"; command = Command.noop })
unfolding trim_line to_ascii_uppercase to_upper split_once is_utf8
noop_parsed =
    tagged_try_from-Writes environment.caps environment.items nom nom-Lawful (codes "b")
      Command.noop (codes "NOOP") (bare (codes "NOOP") noop refl) refl refl

pipelined_is_lost_example :
    (next_op environment busy.session
      ≡ (stalled, record busy.session { connection = record (says []) { buffered = false } }))
    × Step environment busy (record {
      session =
          send environment listed
            (record busy.session { connection = record (says []) { buffered = false } });
      futures = [];
    })
pipelined_is_lost_example =
    pipelined_is_lost environment b'b' (codes " NOOP\r\n") false []
      (record { tag = codes "b"; command = Command.noop }) listed [] busy list_in_progress
      listing-Completes refl noop_parsed

running_completes_example :
    (p : Payload environment) × Step environment after
      (record { session = send environment p after.session; futures = [] })
    × (◌≡◌ {A = List Operation} [] [])
    × (p.0 ≡ codes "a")
    × (ready (OpResult environment.attributes) (send environment p after.session).queue
        ≡ (returned (some p), record { commands = []; rx = [] }))
running_completes_example = running_completes environment after op [] after-Reach refl tt
