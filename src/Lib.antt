-- ===== src/Lib.antt =====
-- magiclaw routes messages between chat channels and AI agents. This library models the parts that
-- decide what happens to a message and to a call, and proves what they promise.
--
-- The parts, and where each is modelled:
-- - Resilience: src/core/resilience. Breaker is circuit_breaker.rs, Bulkhead is bulkhead.rs, and
--   Gate is gate.rs, which runs a call through both, with src/application/resilient_sender.rs,
--   which puts the sender of the outbox behind a gate.
-- - Domain: src/domain. Message is entities/message.rs and value_objects/route_key.rs, Reorder is
--   services/reorder_window.rs, the buffer that puts the messages of a conversation in order,
--   Btree is the map that it stands on, and Conversation is aggregates/conversation.rs with the
--   loop of a worker of src/adapters/conversation_store.rs.
-- - Audit: Chain is src/domain/services/audit_chain.rs, the hash chain over the audit log, and
--   Sink is src/adapters/sqlite_audit.rs, which extends and verifies the log in the database; its read of the chain's head and its
--   write may fail.
-- - Outbox: Entry and Backoff are src/infrastructure/storage/outbox.rs and dead_letter.rs, Table
--   is src/adapters/sqlite_outbox.rs and sqlite_dead_letter.rs, and Worker is
--   src/application/outbox_worker.rs and crash_recovery.rs: an entry is marked, sent, and ends as
--   sent, as waiting for a retry, or as a dead letter.
-- - Inbox: Processor is src/application/inbox_processor.rs over src/adapters/sqlite_inbox.rs,
--   which takes an inbound message in once.
-- - Access: Clients is src/adapters/api_client_registry.rs, the tokens of the REST interface, and
--   Http is src/adapters/http_auth.rs, the middleware that asks for them.
-- - Pipeline: src/core/pipeline. Chain is middleware.rs, RateLimit is rate_limit.rs, Reply is
--   formatter.rs and outbox.rs, which put a reply into the outbox, and Limited is the part of the
--   chain of src/infrastructure/runtime.rs from the rate limit on.
-- - Routing: Routes is the table of routes of src/adapters/conversation_store.rs, with the bounded
--   queues and the windows of its workers, the end of a worker and the collection of idle routes; Dispatch is
--   src/application/route_message.rs over deduplicate.rs and src/adapters/moka_dedup.rs, and
--   Inbound is the task `inbound_router` of src/infrastructure/runtime.rs, which puts Inbox before
--   Dispatch. Channel has tokio's bounded channel as an interface.
-- - Bindings: src/application/binding.rs, the projects, the delivery targets and the bindings
--   between them; Csv and Import are its imports, Ids the ids of its targets.
-- - Push: src/application/push.rs, which writes a message for each bound target of a project into
--   the outbox; Jobs has its operations, Run the import and the run of a job.
-- - Agents: Command is src/core/pipeline/agent_command.rs, the parser of the commands by which a
--   user picks an agent, and Selection is agent_command_middleware.rs over
--   src/adapters/sqlite_user_preference_store.rs, which keeps the choice.
-- - Database: what the callers of src/infrastructure/db.rs see of it; `ON CONFLICT` is in Upsert.
-- - Common: lists and texts measured by native numbers, Rust's Result, and signed integers.
--
-- How the code is read:
-- - A String is the list of its code points, Common.Text; `as_bytes` gives its UTF-8 bytes.
-- - Unsigned integers are natural numbers with their wrap-around or saturation written out where
--   the code's arithmetic can reach it; an i64 is an integer. Sums of clock readings are not
--   wrapped.
-- - A clock is an argument: the breaker takes nanoseconds, the window milliseconds, and the worker
--   reads its clocks off the state of the outside.
-- - A table is the list of its rows, a statement a function on it; where the database may fail,
--   the model says which calls do.
-- - A program over the database (Database) is a state monad with an error: its world holds the
--   tables and, call by call, the faults that the database has in store.
-- - The routes are a list with one entry for a key, a worker its number, and a step of the store
--   holds the locks that it takes; a run is a list of events.
-- - BTreeMap is the ascending list of its entries. SHA-256 is a parameter of the chain, tokio's
--   semaphore an interface with the laws that its documentation states, the jitter's
--   floating-point product a field of the configuration, and the sender a function on the state of
--   the outside.
-- - moka's cache is an interface: the closure of `get_with` runs exactly on a miss.
-- - JSON, base64, UUIDs and the random tokens are parameters too; serde_json is assumed to read
--   back a list of strings that it wrote.
-- - Loops over a batch or a log recurse on the list; nothing runs on fuel but the printing of a
--   32-bit number, whose ten digits are the fuel given.
--
-- Not modelled: logging, the channels' network protocols, the HTTP and MCP servers, configuration,
-- the wiring in src/infrastructure/runtime.rs and src/main.rs, the command line, the listings of
-- bindings and projects, and, so far, the AI step of the pipeline, the
-- persistence of conversation states, and the parsing of push files.
pub mod Common
pub mod Database
pub mod Resilience
pub mod Domain
pub mod Outbox
pub mod Audit
pub mod Access
pub mod Pipeline
pub mod Inbox
pub mod Routing
pub mod Bindings
pub mod Push
pub mod Agents
