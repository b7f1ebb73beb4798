-- ===== src/Lib.antt =====
-- brev, a mail server: its SMTP and its IMAP server, modelled and verified.
--
-- A client's bytes come over a connection (crates/line), which gives lines and can be upgraded to
-- TLS. The SMTP server (crates/smtp) reads commands from the lines and keeps a session: who has
-- said hello, and the envelope of the mail transaction. DATA and BDAT hand a message over to the
-- caller, who reads its body from the same connection and answers the client. Which extensions
-- the server offers stands in its answer to EHLO. The IMAP server (crates/imap) reads tagged
-- commands, whose text crates/imap-proto parses, and keeps a session: who is authenticated, and
-- which mailbox is selected. A command that needs the mailboxes goes to the caller as an
-- operation; the queue of the session knows it until its result arrives on a channel, and the
-- session then writes the response.
--
--   - Base and its children: numbers, lists, byte strings, decimal numerals and UTF-8, as the
--     Rust standard library has them. A `&str` is its UTF-8 bytes.
--   - Io: asynchronous code over one connection. A `World` holds what the environment will
--     answer to each read and each write, and the trace of what was sent; an `async fn` is a
--     function from the object that it changes to an `Outcome` and that object. Io.Laws has
--     the rules of its triples, Io.Settles those of actions that come to an end.
--   - Line: crates/line/src/lib.rs and stream.rs (read_line, write_flush, MaybeTls::upgrade,
--     Connection::upgrade).
--   - Line.Encryption: crates/line/src/stream.rs over the streams of tokio and rustls as
--     parameters (Tls, MaybeTls with upgrade and its poll functions). Encryption.Upgrades is
--     about calls on such a stream, and relates it to the upgrade that the sessions are
--     modelled over.
--   - Listener: src/listener.rs (MultiListener::accept_tls, accept) and the loops of
--     src/main.rs that spawn a session for each connection. Listener.Rounds is about one
--     connection, Listener.Idle about a round without one, Listener.Serving about the loops.
--   - Nom, Flags: the crates nom and bitflags as parameters, and crates/util/src/lib.rs, the
--     macro flags!. Flags.RoundTrip is about the names of a set.
--   - Auth: crates/auth/src (WhichMechanism::from_str); Auth.Plain:
--     crates/auth/src/sasl/plain.rs (decode, Plain::eat).
--   - Smtp.Command: crates/smtp/src/command.rs (Command::try_from, mailbox). Its parser of
--     addresses, the crate email_address, is a parameter. Command.RoundTrip is about what it
--     accepts.
--   - Smtp.Reader: read_cmd of the same file, and crates/smtp/src/io.rs (bye). Reader.Ends is
--     about what a command that is read takes from the connection.
--   - Smtp.Ehlo: crates/smtp/src/ehlo.rs, Display of the response to EHLO. Ehlo.Read is
--     Response::read of the same file, a client's parser; Ehlo.RoundTrip, with Ehlo.Lines,
--     Ehlo.Texts and Ehlo.Folds, relates the two.
--   - Smtp.Data: crates/smtp/src/message/data.rs (State::advance, Data::poll_read).
--     Data.Decode is the specification, a function on the whole input; Data.Advance and
--     Data.Polling, with Data.Polled, relate one byte and one call to it, Data.Polls many
--     calls, Data.RoundTrip and Data.Message the text that a client sends.
--   - Smtp.Session: crates/smtp/src/server/session.rs and the envelope of
--     crates/smtp/src/message.rs. Session.Keeps has the invariant and what keeps it,
--     Session.Invariant is what holds at every point of the dialogue, Session.Settles about
--     what the handlers take from the client, Session.Ends about its loop, Session.Transaction
--     about the commands of a whole transaction.
--   - Smtp.Bdat: crates/smtp/src/message/bdat.rs (next_bdat); Bdat.Body: Bdat::poll_read of
--     the same file. Bdat.Ends is about the loop of next_bdat, Bdat.Chunks about one call,
--     Bdat.Delivered and Bdat.Whole about a message in many chunks that is read to its end.
--   - Smtp.Message: Incoming of crates/smtp/src/message.rs (data, bdat, accept, reject).
--   - Smtp.Reading, with Smtp.Data.Truncated and Bdat.Whole: a reader who polls a message to
--     its end, as read_to_string does. Smtp.Serve: handle_connection of src/main.rs; the bytes
--     of each body arrive beside the lines of the `World`. Serve.Received and Serve.Accepted
--     are about the messages that it receives.
--   - Imap.Flag: crates/imap-proto/src/flags.rs (Flag, its Display and FromStr, the response
--     FLAGS) and fmt_paren_list of crates/imap-proto/src/lib.rs. Imap.Flag.RoundTrip relates
--     the text and the parser.
--   - Imap.Response, Imap.Capability, Imap.List, Imap.MailboxStatus, Imap.Select: crates/imap-
--     proto/src/response.rs, exists.rs, recent.rs and command/capability.rs, list.rs,
--     status.rs, select.rs, the responses with their text.
--   - Imap.Sequence and Imap.Fetch: crates/imap-proto/src/sequence.rs and command/fetch.rs,
--     what FETCH takes. Imap.Sequence.RoundTrip, with Sequence.Bounds, relates the text of a
--     set and its parser.
--   - Imap.Command, with Command.Args and Command.Parse: crates/imap-proto/src/command.rs (the
--     macro args!, parse_command, TaggedCommand::try_from). Command.Names, Command.Words,
--     Command.Quoted, Command.Written, Command.Sets and Command.RoundTrip are about the text
--     that a client writes, Fetch.RoundTrip about what it asks for with FETCH. Imap.Reader:
--     read_cmd of crates/imap/src/server.rs.
--   - Imap.Authenticate: crates/imap/src/authenticate.rs, over Base64 as a parameter.
--     Authenticate.Approved and Authenticate.Exchange are about the identity that comes out.
--   - Imap.Ops and Imap.Queue: crates/imap/src/server/ops.rs and queue.rs. What each look into
--     the channel finds is taken from a list.
--   - Imap.Session, with Session.Loop: crates/imap/src/server/session.rs. Session.Rules has
--     the invariant and what it means to keep a predicate; Session.Handlers, Session.Awaits
--     and Session.Turns are the rules for the handlers, for next_cmd and for next_op, which
--     Session.Results and Session.Invariant apply to the invariant. Session.Finishes,
--     Session.Consumes, Session.Reads and Session.Ends are about its loops, over Io.Finishes,
--     Line.Finishes, Imap.Reader.Finishes and Imap.Authenticate.Finishes.
--   - Imap.Operations: src/operations.rs and src/operations/list.rs, select.rs, what the
--     caller does with an operation. Operations.Served puts the caller and the session
--     together, and Session.Examine is about EXAMINE before the login.
--   - Imap.Serve: handle_imap of src/main.rs, a step relation over a session and the futures
--     of its operations, one step for each turn of `select!`. Serve.Tracked is about a call of
--     next_op, Serve.Served about all states that are reached, Serve.Dropped about the future
--     of next_op that `select!` drops. Serve.Anyone is the validator of src/main.rs.
--   - Tests: concrete instances of the parameters, and runs.
--
-- Loops run on fuel. `advance_within` gets two calls, since `advance` calls itself at most once.
-- The loops of `read_cmd_inner`, `next_message` and `next_bdat` read at least one line in each
-- turn, and their fuel is one more than the answers that the environment will give; a read past
-- these never ends, which `read_cmd` turns into its timeout. The loop of `Response::read` takes
-- in each turn an answer or up to a thousand bytes of one, and has one more turn than these
-- answers and their bytes. The loops of IMAP's `read_cmd` and `authenticate` and of `next_op`
-- have theirs in the same way, one or two more than those answers; those of `next_cmd` count what
-- the channel holds and the commands in progress. `Bdat::poll_read` gets two turns for each of
-- those answers and three more, since it takes a chunk and a command in turn; Bdat.Delivered
-- shows that this is enough. `poll_from` is structural on the outcomes of the reads of the
-- stream.
--
-- A `World` gives to each `read_until` the bytes that it returns, under the limit of 1000 bytes
-- on a line; for `Response::read` it gives whole lines, of which `read_up_to` takes no more than
-- that. Time is not modelled: a wait that never ends is the outcome `stalled`. Logging is left
-- out. The listener gets, for each call of accept, what it finds at its two sockets. Not modelled
-- are the environment variables, certificates, and the database that src/main.rs opens, and the
-- binding of sockets.
pub mod Base
pub mod Io
pub mod Nom
pub mod Flags
pub mod Auth
pub mod Line
pub mod Listener
pub mod Smtp
pub mod Imap
pub mod Tests
