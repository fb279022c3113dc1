-- ===== src/Lib.antt =====
-- A verification library for lib-agent-harness: models of the parts of its Go code that decide
-- something, and the theorems that make them correct. A path below is from the repository's root.
--
-- The program runs agents on command-line harnesses and HTTP endpoints. A caller describes a provider
-- (harness.go); a session runs turns on it (session), hosts the caller's tools for the model, adds up
-- what each response consumed (usage.go, internal/tokens), keeps a durable transcript where the
-- library runs the loop itself, and answers what each engine can do from a static table.
--
-- Provider: harness.go. The record of a provider and `Problem` and `EffortProblem`, which validate it.
--   The codes are a data type; "" is `no_problem`. `url.Parse` and the loopback test of `net.ParseIP`
--   are parameters. Provider/Accepted and Provider/Admitted are about what is accepted.
-- EdgeProxy: internal/edgeproxy/proxy.go. The policy that `newProxy` makes of its destinations, and `serve`
--   up to its dial. The parsers, the resolver and the lower case of `strings` are parameters. EdgeProxy/Names
--   says what a hostname, a CONNECT and a permitted address are, EdgeProxy/Admission what is dialled.
-- Usage, Tokens: usage.go and internal/tokens/tokens.go. An int64 is an integer that wraps at 2^64
--   (Prelude/Int). Tokens/Sums, Tokens/Reports and Tokens/Accumulation are about checked sums, reports
--   and `Add`.
-- EventStream: `readEvents` of internal/apihttp/stream.go. EventStream/Lines feeds a reader the lines of a
--   stream, and EventStream/RoundTrip reads back what a server sends.
-- Chat: completion/openai_chat.go, completion/openai_stream.go and completion/replay.go, of decoded JSON.
--   Chat/Stream is `chatStream`, Chat/Reply is `parseChatCompletion`, and Chat/Reply/Answers says what its
--   answers are; Chat/Streamed is `response` with the answer that is parsed from it; Chat/Wire makes `add`
--   the callback of `readEvents`. Chat/Messages is `chatMessages`, and Chat/Messages/Sent sends the
--   conversation of a transcript; Chat/Replay is `captureReplay` and `openReplay`. The decoding of an event
--   and of an envelope, the tools that may be called and the test for a JSON object are parameters.
-- Toml: internal/restrict/toml.go. Toml/Reading is a reader of the part of TOML that is written, which is
--   independent of the source; Toml/RoundTrip, Arrays, Sorted, Overrides and Accepted compare the two.
-- Session/Accounting: `Usage.add` of session/turn.go and `turnAccount` of session/api_loop.go.
-- Session/Host: session/toolhost_admission.go and session/toolhost.go. The host is a record, and each
--   function is one critical section under its mutex. Session/Host/World adds one worker to each call,
--   for the goroutine that runs it, with a stage for every point at which another may run; an action is
--   a move of a worker or an operation of the session, and a history is a list of actions in any order.
--   Session/Host/Serial, Starts and Settlement are about these histories.
-- Session/Transcript: session/api_transcript.go. The records, `conversation`, `callStates` and
--   `recoverTranscript`. Transcript/Answers is about the order of the messages, Transcript/Recovered
--   about a transcript with the records of its recovery.
-- Session/Loop: session/api_loop.go and `append` of session/api_session.go. What the loop reads of the
--   model, the calls, the store and the caller's cancellation is a script, a step for each round. Loop/
--   Settles is about the transcript that a turn leaves, Loop/Accounted about what it publishes.
-- Session/Turn: session/turn.go. `finish`, `emit`, the caller's receive and `Wait`; a misuse of a Go
--   channel, which panics, is recorded in the state.
-- Session/Control: session/control.go, session/compact.go and `failTurn` of session/session.go, over
--   Session/Host/World and Session/Turn. The operation that holds the session's gate has a stage for every
--   point at which something else may happen, and so has `failTurn`; an event is a step of one of them, an
--   action of the host, or what the harness does to a turn, and a history is a list of events in any order.
--   Control/Keeping, Progress, Failing, Finishing, Moves and Tooled say what an event can change, and Control/Alone,
--   Fresh, Shut and Ended what holds after every history.
-- Session/Health: session/health.go.
-- Workbench: sandbox/write.go. Workbench/Edit is `applyEdit`, with strings.Count and strings.Replace, and
--   Workbench/Exact says what each answer means for the parts between the matches. Workbench/Replace is
--   `replaceFile` over the target and the temporary file, with a record of what goes wrong.
-- Text: internal/textbound and `bound` of session/redact.go. A text is the list of its bytes.
-- Capability: capability.go, capability_table.go, capability_loopback.go, capability_inspection.go. The
--   table is one function for each run of its rows, and `support_for` is `supportFor`.
-- Examples: the theorems at concrete inputs.
--
-- Fuel: the loop of `bound` has as many rounds as the limit plus two, and each round but the last cuts
-- the text shorter; `strconv.Itoa` has as many as the number, more than it has digits. The loop of
-- `readEvents` has one round more than the stream has bytes, and each round but the last takes one. The
-- loop of a turn has the rounds that are left of its own bound on steps.
--
-- Not modelled: sockets, files, locks, processes, JSON and the wire formats of each engine, which are
-- input and output; the package completion but for the files above, and the packages native, account,
-- catalog, process and the rest of sandbox; the tunnels of the edge proxy; redaction; the adapters of
-- the engines, which start and steer them; of a session, its telemetry, its capabilities and the context
-- that it delivers with a turn. The time of a transcript's record is left out.
mod Prelude
pub mod Provider
pub mod EdgeProxy
pub mod EventStream
pub mod Chat
pub mod Workbench
pub mod Usage
pub mod Tokens
pub mod Session
pub mod Capability
pub mod Toml
pub mod Text
mod Examples
