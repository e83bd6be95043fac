-- ===== src/Lib.antt =====
-- TokenHub, a gateway to upstream language models with prepaid credits: its credit ledger, prices,
-- routing, storage, caches, audit worker and authentication, the handler of a chat call, which uses
-- most of them, the administrators' handlers, and the agent's tunnel.
--
-- A chat call (crates/api/src/handlers/chat.rs, `chat_completions`) looks up the model and its
-- providers, estimates the price of the prompt, places a hold on the caller's credits, tries the
-- providers in the order that the selector gives (disabling those that fail and going on to the
-- next), and settles the hold at the price of the answer, or releases it. It then logs the call,
-- adds it to the summaries, and counts it against the provider's quota.
--
-- Files, with the code that each models:
--   Prelude and its children: numbers, 64-bit integers that wrap around (I64), the statements of a
--     database over lists of rows (Table), Rust's stable sort (Sort), pages, and texts.
--   Domain: crates/domain, the records and enumerations. Domain/Principal/Texts: the scopes' texts.
--   Billing: crates/billing. Rates is `compute_credits`, Estimator the counts of tokens, UsageSource
--     `resolve_usage`.
--   Credits: crates/storage/src/repo/credits.rs. Ledger has the three tables; Adjust, Hold and Settle
--     the methods, each as a first phase that reads and a second that writes under the version that
--     was read; Queries the two lists. Invariant and Sums say what valid tables are, Writes that each
--     second phase keeps them valid, Methods that each method does, Effects, Lifecycle and Once what
--     the methods do to an account and a hold. Concurrent has tasks that read and write in any order.
--   Router: crates/router-llm. Selector is selector.rs, Fallback fallback.rs and the errors of
--     client.rs.
--   Storage: crates/storage/src/repo. Provider is provider.rs, Model and Mapping are model.rs, Usage
--     usage_log.rs, Token token.rs, Account account.rs, Policy policy.rs, AdminUser admin_user.rs,
--     ServiceAccount service_account.rs, AuditLog audit_log.rs.
--   Cache: crates/cache. Memory is memory.rs, with its history in Memory/History; Balance is
--     balance_cache.rs, Limiter rate_cache.rs.
--   Audit: crates/audit/src/sink.rs. Sink has the worker; Queue and Batching what one of its two queues
--     does, Projection that the worker is the two, Kept, Single and Direct what becomes of the records.
--   Api: crates/api. Error is error.rs; Auth/Token is middleware/auth_chat.rs with the revocation of
--     handlers/admin/tokens.rs; Auth/Admin is middleware/auth_admin.rs; Chat is handlers/chat.rs, of
--     which Request has the data, Upstream the loop over the providers, Accounting what follows an
--     answer, and Handler the whole.
--     Admin/Credits is handlers/admin/credits.rs, Admin/Session is handlers/admin/auth.rs, and Accounts,
--     Tokens, Policies, Services, Providers, Models, Devices and Reports beside it are the files of those
--     names. Admin/State is the state that they share (state.rs), Admin/Routes which handler a request
--     reaches (routes.rs). Limits is middleware/ratelimit.rs, Tun is tun_trait.rs with
--     handlers/admin/tun.rs; Chat/Client is crates/router-llm/src/client.rs, an upstream for the handler.
--   Agent: crates/agent. Frpc is frpc.rs, with a task of `supervise_frpc` as a state machine; Tunnel is
--     tun_controller.rs, calls and tasks in any order, with Processes, Current and Calls the count that every
--     order keeps, and Controller its instance of the trait.
--   The modules named Tests hold the theorems at concrete inputs.
--
-- How the state corresponds: a table is a list of rows in the order of insertion, a primary key is a
-- number (the program only compares it), a column that holds the text of an enumeration is the value
-- that the repository reads in it. A transaction is a function from the tables to a result and the
-- tables. Random identifiers, the clock, the answers of the upstream, the generator of random
-- numbers, the tokenizer and the check of a JWT are arguments. Rust's sums on `i64` wrap around, as
-- in a release build. Arithmetic in SQL is exact in the tables of credits, whose invariant keeps the sums
-- in range, and in a provider's quota, where a sum out of range is not modelled; in the usage summaries a
-- sum out of range becomes a REAL.
--
-- Bounds and fuel: the shuffle removes one element a round and the grouping at least one, so that the
-- length of the list is fuel enough; that neither runs out is part of the result on the selector. A
-- version number would wrap around after 2^63 writes; the result on interleavings bounds the steps.
--
-- Time: the clock's readings are arguments. The cache's deadlines, of which the program keeps an
-- `Instant`, are natural numbers of seconds.
--
-- Not modelled: faults of the database other than a refused row (but for the audit worker, which
-- handles them), HTTP and JSON, streaming (the handler refuses it), cryptography (its results are
-- arguments), Redis, the operating system's processes, and the start of the servers. A chat
-- call and an administrator's request are modelled as running alone; the ledger, which calls share, and
-- the tunnel's controller are modelled under every interleaving.
pub mod Prelude
pub mod Domain
pub mod Billing
pub mod Credits
pub mod Router
pub mod Storage
pub mod Cache
pub mod Audit
pub mod Agent
pub mod Api
