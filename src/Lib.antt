-- ===== src/Lib.antt =====
-- A model of BoardChestrator's core: the pipeline that every change goes through, the
-- permissions it asks for, the job pool and the run engine of the agents, with the guards around
-- them: sign-in, client addresses, rate limits, last owners and SCIM filters.
--
-- How the parts interact: a request, a tool call of an agent or a job becomes a call of
-- Dispatcher.Dispatch (internal/action), which checks the actor, the scope and the permission
-- (internal/perm, or internal/agentrt for a running agent), asks the approval gate for agents
-- (internal/agentrt), runs the handler in a transaction, and records the result, with an event
-- that goes into the bus (internal/event) and from there to browsers (internal/sse). A run of an
-- agent is a job of the pool (internal/job); its handler loops over the model's tool calls, each
-- of which is again a call of Dispatch. internal/auth guards the sign-in before any of this.
--
-- The files:
--   Prelude        names, Boolean tests, list and text helpers, and Go's (value, error) results
--   Action         internal/action/action.go: actors, scopes, impacts. Action/Model: the values
--                  and the hooks of dispatch.go. Action/Admit: steps 1 to 5 of Dispatch
--                  (`admit`), with checkScopeShape of scope_self.go. Action/Record: steps 9 to
--                  11, with the stores of store.go. Action/Dispatch: execute and the whole of
--                  Dispatch. The state is `World`: the tenant database, the idempotency keys,
--                  the events and the audit log. Action/Schema: schema.go.
--   Perm           internal/perm/engine.go: checkPermission, Allow, AllowAgent and the adapter;
--                  the queries are a record of functions, where `none` is an error.
--   Job            internal/job/pool.go: the job table is a list of rows, and a worker's round
--                  is `worker_round`, with what it meets (`Round`): the clock, the failures of
--                  statements and what others do to the table. Job/Workers interleaves workers.
--   Agent          internal/agentrt: Agent/Perms (perms.go), Agent/Gate (approvals.go),
--                  Agent/Decide (internal/action/approvals.go), Agent/Retry (the job handler of
--                  engine.go), Agent/Steps, Agent/Loop and Agent/Stream (tools.go, with
--                  readStream of internal/client/client.go), Agent/Trigger (EnqueueRun of
--                  engine.go, over the tables and an environment `Env`). The foreign keys of the
--                  notifications and approvals are in the model: a statement that breaks one fails.
--   EventBus       internal/event/event.go and adapter.go: the bus, its subscriptions with
--                  their buffers, and the operations on it (`Op`).
--   Sse            internal/sse/sse.go: the hub, its clients with their buffers, and the ring
--                  of messages for replay.
--   Auth           internal/auth: Auth/Replay (replay.go), Auth/ReturnTo (returnto.go),
--                  Auth/Exempt (csrf_exempt.go), Auth/ClientIp (clientip.go).
--   Owners         internal/action/last_owner.go and what it guards: the membership, role and
--                  user tables (`Tables`), the handlers and the automated paths (`Step`).
--   RateLimit      internal/ratelimit/ratelimit.go: the limiter with its map of buckets.
--   Scim           internal/auth/scim/filter.go: Scim/Lexer (tokenize), Scim/Syntax, Scim/Parser
--                  (ParseFilter, ParsePath), Scim/Match (Filter.Match). The lexer's fuel is the
--                  length of the text and the parser's is the number of tokens.
--
-- Text is a list of byte values. Time is milliseconds, but nanoseconds in RateLimit and seconds in
-- Agent/Gate. Tables are lists of rows. What a component calls and does not own (encoding/json,
-- net/url, the model provider, most SQL reads, the handlers of actions, money as a number) is a
-- parameter. Loops are structural; the tool loop recurses on the steps left below its own cap of
-- 25, so no fuel is added there.
--
-- Not modelled: HTTP and HTML, most action handlers, the single sign-on protocols,
-- search, reports and storage, and most of the generated queries. A transaction is its effect on
-- the state: a rolled-back one leaves the state from before.
pub mod Prelude
pub mod Action
pub mod Perm
pub mod Job
pub mod Agent
pub mod Auth
pub mod EventBus
pub mod Sse
pub mod Scim
pub mod Owners
pub mod RateLimit
