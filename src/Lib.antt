-- ===== src/Lib.antt =====
-- A verification library for the PFM backend (pfm/app): its core as definitions that can be run,
-- and theorems about them.
--
-- The program is a FastAPI service with Celery workers. A mutation is first limited
-- (core/rate_limit) by counters in Redis, whose client the process owns (db/redis). It then runs
-- under an idempotency key (core/idempotency): one row of a table per scope and key records the
-- claim, its lease and its result. What goes wrong is raised as a problem (core/exceptions).
-- External services are called through a client with retries (clients/base). A bearer token is
-- verified with keys from a cache of the identity provider's keyset (auth/jwks, auth/verifier). The
-- categorization engine has a taxonomy and tables of vendors' labels (engine).
--
-- Files and the code that they model:
-- - Base, Base/Tests, Base/Lists, Base/Text, Base/Prefixes, Base/Parsing, Base/Sorting: shared
--   names, Boolean tests, lists over native numbers, Python's dictionaries as association lists,
--   and the text methods and the sort that the code uses.
-- - Idempotency/Types, Resolution, Fingerprint, Table, Turn, Claim, Execute, Cleanup, Submit:
--   pfm/app/core/idempotency.py. `claim_pass` is a pass of `_claim_request`,
--   `execute_claimed_operation` is `_execute_claimed_operation`, `replay_record` is
--   `_replay_record`, `execute` is `IdempotencyExecutor.execute` from the resolved request on,
--   `renew_pass` is a pass of `_renew_lease`, `cleanup_expired_idempotency_requests` is the
--   function of that name, `resolve_request` is `_resolve_idempotency_request`, and `submit` in
--   Submit is `execute` from the request on. The table is a list of rows; `add` refuses a second
--   row of an id or of a scope and key, as the database does. The application's data is a type
--   parameter: an operation is a function of it, and a transaction that raises leaves it as it was.
-- - Redis: `RedisService` of pfm/app/db/redis.py, with the connections it has open; Redis/Keys and
--   Redis/Store have its helper methods, over the keys that the server holds.
-- - RateLimit, RateLimit/Limiter: pfm/app/core/rate_limit.py; `call` is `_AppRateLimiter.__call__`.
--   It uses the Redis model as it is: a strict tier recovers the client through `ensure_started`.
-- - Problem, Problem/Classes, Problem/Registry, Problem/Factories: pfm/app/core/exceptions.py;
--   `build` is `ProblemException._build`. Records of class variables stand for the classes.
-- - Problem/Response, Problem/Handlers: pfm/app/core/problems.py and
--   pfm/app/middleware/error_handler.py, from an exception to its response.
-- - Middleware, Middleware/Stack: the other modules of pfm/app/middleware, and
--   pfm/app/core/security.py. An application is a tree of what it does at each `await`; a
--   middleware changes the tree. `wrapped` is their order in `create_app`. Middleware/Serve says
--   what a tree comes to, given the server's answers.
-- - Config, Config/Values: pfm/app/config.py, from the values that pydantic has read on.
-- - Logging: the redaction of pfm/app/core/logging.py.
-- - Health: pfm/app/api/health.py and pfm/app/schemas/health.py, over the Redis service.
-- - Pagination: pfm/app/core/pagination.py, with base64 written out on bytes.
-- - Clients: `BaseClient.request` of pfm/app/clients/base.py, which raises problems of that
--   taxonomy.
-- - Workers: the dispatch of pfm/app/workers/base.py and its hooks around a task.
-- - Transactions: pfm/app/clients/plaid.py, pfm/app/services/transactions.py and
--   pfm/app/api/transactions.py, over the client and the dispatch.
-- - Auth/Jwks, Auth/Verifier: pfm/app/auth/jwks.py and verifier.py; `get_signing_key`,
--   `refresh_keys` and `verify_token` are the methods of those names. PyJWT is the parameter
--   `Package`.
-- - Auth/Directory: the provisioning of pfm/app/auth/service.py over the repository of
--   pfm/app/auth/repository.py; `upsert_local_user` is `_upsert_local_user`. The tables of users
--   and identities are lists of rows, and a write that the unique constraints refuse gives none.
-- - Auth/Json, Auth/Supabase, Auth/Supabase/Flows: pfm/app/auth/supabase.py; a flow gives the
--   requests that it has sent with its outcome.
-- - Auth/Claims: pfm/app/auth/claims.py, bearer.py and principal.py, and the checks of
--   pfm/app/dependencies.py.
-- - Auth/Service, Auth/Service/Accounts: the facade of pfm/app/auth/service.py, over a provider and
--   the directory.
-- - Engine/Taxonomy, Engine/Mappings: pfm/app/engine/taxonomy.py and mappings.py, with all entries.
-- The other files hold proofs and are named for what they prove; Tests files hold runs.
--
-- Time, concurrency and the outside. A time is a number of microseconds. A database transaction is
-- one step, and a `Turn` says what it meets: the time, a fresh id, whether the database is up, and
-- what the other sessions committed before it (`others`, any function of the table). A section
-- under the start lock of the Redis service, or the lock of the key cache, is one step; what other
-- tasks do while a call waits for the lock is the argument `meanwhile`. A call of a limiter and an
-- upsert of a user are one step each. The transports, the limiter package, SHA-256, the JSON codec,
-- `str.lower`, the phrases of HTTP statuses and `str.capitalize` are parameters.
--
-- Loops. The loops of `_claim_request`, `execute` and `_renew_lease` run over lists of turns, one
-- for each pass; `again` is a loop whose list has run out before it ended. The retry loop of the
-- client runs over `max_retries + 1` attempts as the code's `range` does, and the digits of a
-- number n take at most n steps.
--
-- Not modelled: metrics, traces and analytics, and log lines other than the completion event of a
-- request, which are side channels; the Anthropic client, a wrapper of a package; the test doubles;
-- the other routers and schemas, which bind the modelled parts to FastAPI; the configuration of the
-- workers and the retry policy, which Celery reads; the migrations. Negative limits, which the
-- settings refuse, are left out: limits are natural numbers.
pub mod Middleware
pub mod Config
pub mod Logging
mod Base
pub mod Idempotency
pub mod Redis
pub mod RateLimit
pub mod Engine
pub mod Health
pub mod Pagination
pub mod Problem
pub mod Clients
pub mod Auth
pub mod Workers
pub mod Transactions
