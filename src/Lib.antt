-- ===== src/Lib.antt =====
-- A verification library for the bank server and its simulator.
--
-- The program. `server` keeps a bank account: `LocalBank` (server/src/bank.rs) is a log of
-- transactions behind locks, written line by line to a file; the TCP server (server/src/lib.rs)
-- starts a task for each connection, which reads messages that end at a NUL, parses them as actions
-- and answers from the bank. `simulator` (simulator/src) drives the server in a deterministic
-- simulation by clients that follow generated plans; `tcp_client` (tcp_client/src/main.rs) is a
-- terminal for the protocol.
--
-- The files.
-- - Prelude: names of the libraries, Boolean tests, lists measured by native numbers
--   (Prelude/Lists) and the i32 identifiers (Prelude/Id). `TransactionId + 1` panics or wraps at
--   the largest i32, as `overflow_checks` of the platform says.
-- - Text: strings as lists of code points, bytes as numbers below 256, positions as byte
--   positions; UTF-8 (Text/Utf8), splitting and joining (Text/Split, Text/Lines), numbers
--   (Text/Number).
-- - Outcome: what a call comes to, a value, an error or a panic, and the state monad of the
--   stateful functions; Outcome/Sinks is what bytes are written to, with the fate of each write
--   chosen before.
-- - Framing: `read_message` and `write_message` of server/src/lib.rs. A stream is the list of what
--   its reads return. Chunks and Messages are about ASCII text, Wide about what lies beyond it,
--   Size about what a call uses up.
-- - Transaction: the record of server/src/bank.rs, and Transaction/Display its `Display` and
--   `FromStr`.
-- - Platform: the decimals, the JSON form, the clock and the overflow mode, which are parameters,
--   and what is relied on of them (Platform/Laws). Sample is a concrete platform for the tests,
--   Sample/Closed another, whose texts end at a mark.
-- - Bank: `LocalBank`, one function for each method; Bank/Open is `LocalBank::new`. `current_id`
--   stays locked for the whole of `create_transaction`, so calls of it follow one another. The
--   other files say what the methods do: Create, Failure, Success, Void, CurrentId, Sound (any
--   calls), Recovery (the file and reading it back), Broken (after a failure), Serves (calls one
--   after the other), Healthy (as long as nothing fails or overflows), Ends (how a call ends).
--   Stages cuts `create_transaction` where it awaits a lock, of which only one writes (WriteOnce);
--   Killed is a call that goes no further, and Killed/Reopens its file opened again; Interleaved
--   is the steps of tasks that share the bank, with the lock of `current_id`, the readers beside
--   it, Interleaved/Killed the server killed between two steps, and Interleaved/Lives killed and
--   started again and again. Torn is a call whose write breaks off, and Torn/Restart its file
--   opened again.
-- - Server: the task of one client (`round`, `serve`), its handlers (Server/Handlers), what they
--   work on (Server/Task) and the actions (Server/Actions). Server/Requests states the protocol
--   without bytes; Replies, Answers, Rounds and Session are about the task following it. Chains
--   carries a relation through the handlers; Commands is the calls of the bank, Clients several
--   connections on one bank, Run the start of the server, Restarts runs one after the other on the
--   same file, Fuel the end of the loop. Server/Start is the address of server/src/main.rs.
-- - Server/Logger: the lines of the log, as server/src/main.rs formats them.
-- - Simulator: the plans of the banker, the health checker and the fault injector
--   (simulator/src/client/*/plan.rs: Plan, BankerPlan, HealthPlan, FaultPlan), the loop that
--   performs a plan and generates more of it (Loop; Banker/Start, Health/Start and Faults/Start
--   are its uses, TimeLimit the limits around interactions), the queue of bounces (Actions), the
--   number of bankers (BankerCount), the host (Host), the fault injector's interactions (Faults),
--   the clients' `read_message` (Reply), their connections and the loops that try again
--   (Connection), the banker's interactions (Banker, of simulator/src/client/banker/mod.rs, with
--   the assertion on the reply to a lookup in Checks), the health checks (Health), the start of a
--   simulation (Start, of simulator/src/main.rs), and of simulator/src/http.rs the comparison of
--   headers (Headers), the parsing of responses (Http) and the request (Http/Request).
--   Simulator/Banker/Served joins the banker with Server/Requests, and Simulator/Banker/Exchange
--   with the task of the server; Simulator/Banker/Recorded and Runs are what the log holds of a
--   plan.
-- - Terminal: the tasks of tcp_client/src/main.rs that print and send messages, each by itself;
--   Terminal/Tasks has them side by side, with the thread that reads lines and the awaits of
--   `main`. Session is what has been sent when `main` returns, Shown what has been printed, Steady
--   and Ends that it returns, Panicked the thread's panic.
--
-- Bounds and fuel. `serve` takes fuel for its rounds; the characters of the buffer and the bytes to
-- come bound the rounds (Server/Fuel). The inner loop of the fault injector's plan takes fuel,
-- which is enough when no more bounces are skipped in a row. The 1024 bytes of a read's buffer
-- bound nothing: a chunk is what one read returns, of any size. `as CreateTime` and `as u64` keep a
-- u64 as it is. A `step` of a plan is a number without bound. A client's attempts to connect are a
-- list, chosen beforehand; where it ends, the client is still trying. The terminal's loop takes
-- fuel, more than the messages that come.
--
-- Not modelled. Sockets, task scheduling, sleeps, signals, colours and the simulation itself are
-- libraries'. How long an interaction of a client takes is chosen beforehand, and compared with
-- its limit. Which connections are accepted, and when, is a list of steps chosen beforehand; a
-- step of Server/Clients is a whole round, which calls the bank at most once, and cancellation
-- ends accepting but no task. Server/Restarts stops the server between rounds,
-- Bank/Interleaved/Killed between two steps of its calls; none stops it inside a write, though a
-- write may break off (Bank/Torn). The terminal's editor gives a list of results, and its tasks
-- take turns in an order chosen beforehand. Random numbers, the environment and the clock are
-- parameters.
pub mod Prelude
pub mod Text
pub mod Outcome
pub mod Framing
pub mod Transaction
pub mod Platform
pub mod Bank
pub mod Server
pub mod Terminal
pub mod Simulator
pub mod Sample
