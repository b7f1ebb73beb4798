-- ===== src/Tests/Operations.antt =====
-- src/operations.rs, with a session of crates/imap/src/server/session.rs, at concrete inputs.
use brev.Base.{◌≡◌, refl, true, false, some, [], codes}
use brev.Io.{returned}
use brev.Imap.Command.{Command}
use brev.Imap.Ops.{Operation}
use brev.Imap.Operations.{handle_operation}
use brev.Imap.Operations.Served.{with_result, examine_selects}
use brev.Imap.Session.{ImapSession, Payload, authenticated, selected}
use brev.Imap.Session.Loop.{handle, consume_all_within}
use brev.Tests.Imap.{environment}
use brev.Tests.Samples.{says}

-- A client who is logged in.
abbrev bob : ImapSession environment
bob = record {
  connection = says [];
  state = authenticated (codes "bob");
  queue = record { commands = []; rx = [] };
  greeted = true;
  tls = false;
}

examine_selects_example :
    (op : Operation) × (p : Payload environment) × ((handle environment
        (codes "a")
        (Command.examine (codes "INBOX"))
        bob).0
      ≡ returned (some op))
    × (handle_operation environment.attributes op ≡ some p)
    × ((consume_all_within environment 2 (
          with_result environment p
            (handle environment (codes "a") (Command.examine (codes "INBOX")) bob).1)).0
        ≡ returned tt)
    × ((consume_all_within environment 2 (
          with_result environment p
            (handle environment (codes "a") (Command.examine (codes "INBOX")) bob).1)).1.state
        ≡ selected (record { mailbox = codes "INBOX"; read_only = true; identity = codes "bob" }))
    × ((consume_all_within environment 2 (
          with_result environment p
            (handle environment
              (codes "a")
              (Command.examine (codes "INBOX"))
              bob).1)).1.queue.commands
        ≡ [])
examine_selects_example =
    examine_selects environment (codes "a") (codes "INBOX") (codes "bob") bob refl refl refl
