-- ===== src/Lib.antt =====
-- Feature Frontend: a server on which agents change a repository, with accounts, plans and limits.
--
-- The program has two servers. app/ runs jobs: it gathers the context of an agent, asks a language
-- model for changes, and applies the unified diffs that it answers with. backend/ keeps the accounts:
-- registration and login with rate limits, sessions and a second factor, plans and spending. Both
-- keep their state in a database, and backend/ counts in Redis.
--
-- Prelude: the native numbers, lists, Python's slices (Prelude/Int) and texts as lists of code
--   points (Prelude/Text). Action: a handler, which changes a state and returns a value or raises;
--   what was changed before it raises stays changed.
-- Redis: the server as an interface of operations and laws, which the code takes as an argument.
--   Redis/Model is a server that keeps the laws.
-- Auth: backend/auth/service.
--   Database has the rows of backend/db/models and `session_scope` of backend/db/session.py; Outside has
--   the settings and what libraries and services do, as parameters; Call has what a request
--   brings: the client, the time, and the fresh ids and tokens that it draws.
--   RateLimit and Limits: rate_limit.py. Lockout, LockoutLaws, LockoutRun: the keys of
--   auth_service.py and what failed logins lead to. Sessions, SessionLaws: session_service.py.
--   Refresh, RefreshLaws: `refresh_tokens` and the two ways to sign out; Search: look-ups in a
--   table that was changed. World: the database and Redis together, and captcha.py. Login,
--   LoginLaws, LoginFailures: `login_user`. TwoFactor, TwoFactorLaws: the four handlers of the
--   second factor. Recovery, RecoveryLaws: `recovery_login`. Links, LinkLaws: the links sent by
--   mail, which registration_service.py and password_reset_service.py treat alike; Registration,
--   LinkUse and PasswordReset, ResetUse: the rest of those two files. Samples: for examples.
-- Account: backend/account. Tables: backend/db/models/billing.py. Spending, CapLaws: the limits and
--   the spending of services.py, and enforcement.py. Plans, PlanLaws, Returns, Requests:
--   `PlanService`, with the commit that ends a request.
-- Context: app/context. Compactor, Excerpts: compactor.py. Selection, Budget, Cap: the two loops of
--   `build_context` in engine.py.
-- Subscription: backend/subscription/service.py, its quotas in Usage and what is counted in UsageLaws.
-- Diffs: app/core/diffs.py. Header, Hunk, Rebuild and Apply follow `apply_unified_diff` from the
--   headers of a file to the texts that are written; Render prints diffs; Lines, Hunks, Correct
--   and Edges are the proofs.
-- Jobs: the jobs of app/. Tables: app/db/models.py and app/db/repo.py. World: where a run is, and what
--   it calls. Charges: the limits and the prices, with app/core/pricing.py. Worker: `execute_job` of
--   app/workers/job_worker.py, and `react`, which puts its transactions between those of users who
--   cancel over app/routers/jobs.py. Spec is the run without the tables, and Refines and Rows show
--   that the worker keeps to it; Ends, Final, Bounds, Cancel, Writes and Totals follow from that.
-- Rag: backend/rag. Pages and Crawler: the crawler of websites in crawler/service.py, with what it
--   makes of a page and the loop over the links; Queue, Once, Stops: the links that wait, that no
--   page comes twice, and the end of the loop; Reach, Handled, Exact: the pages of a crawl against
--   those that links lead to. Store, StoreLaws, Unembedded: the rows of tasks/crawl.py and when their
--   embeddings are made. Chunks, ChunkLaws: embeddings/service.py.
-- Memory: the notes of a job. Notes, NoteLaws: app/context/notes.py and memory_store.py. Archive,
--   ArchiveLaws: app/agents/archivist_agent.py.
-- Limiter: backend/middleware/rate_limiter.py. Dispatch: the handler; Passed: what it lets through.
-- Audit: the audit log in backend/admin/services.py. Log: its filters, pages and export, by
--   statements of a database that orders them by time; Order: when that order is the same for all,
--   and Sorting, such a database. Csv: a reader of what the export writes; Export: the batches and
--   the pages.
-- Rows: searches of a table that was changed, for both servers.
-- The Tests of each part run it on samples.
--
-- Names are those of the source without leading underscores. A test of the source is a Bool, a
-- `None` is `none`, an exception is an `err`, in Memory the left of a sum, and in Jobs the phase
-- `failing`. A table is the list of its rows, in the order in which they were added, in Jobs with
-- the newest first; a search for a unique column takes the first row. Times are seconds, amounts
-- are cents. Log lines and the texts of answers are left out, except where an error tells apart.
--
-- Every loop is structural recursion on the lines, rows or candidates that it runs over. The fuel
-- of `execute_job` counts transactions; twice the length of the plan and 6 are enough. That of
-- `crawl` counts URLs taken from the queue; the number of pages times one more than the links of
-- a page, and one, are enough. That of `stream_csv` counts batches; one more than the records is
-- enough. That of `chunk_text` counts chunks; one more than the tokens is enough. The loop under
-- the hard cap of tokens recurses on the selected candidates. Numbers are Python's unbounded
-- integers; where one may be negative (a cursor into a file) it is an integer of Prelude/Int, and
-- a difference that the source bounds by 0 is the subtraction of ℕ.
--
-- Not modelled: the HTTP routes, the pages, mails, the calls of language models, of Git, of
-- Stripe and of vector databases, which are input and output; the ranking of context, which
-- computes with floats; the cryptography of libraries; the upgrade of subscriptions, the limiter
-- of the middleware that knows plans, and the users and their roles on the pages of
-- administrators.
mod Prelude
pub mod Diffs
pub mod Action
pub mod Redis
pub mod Rows
pub mod Account
pub mod Audit
pub mod Auth
pub mod Context
pub mod Jobs
pub mod Limiter
pub mod Memory
pub mod Rag
pub mod Subscription
