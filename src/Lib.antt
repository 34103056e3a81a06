-- ===== src/Lib.antt =====
-- The trade journal: an HTTP API that records trades in PostgreSQL and keeps hot state in Redis
-- (internal/api, internal/store, internal/cache, internal/domain), a worker that reads the stream of
-- recorded trades and maintains the analytics tables (internal/pipeline), and the commands that start
-- them (cmd).
--
-- Parts and files
--   Prelude      tests, lists, results, Go's int64 (`Int`), time.Time in nanoseconds (`Time`), and a
--                description of loops of attempts (`Search`)
--   Platform     what the program runs on: decimals, float64, column types of PostgreSQL, the
--                commands of Redis; one record that every definition takes. Platform/Laws holds
--                the documented laws that single theorems assume
--   Domain       internal/domain: enums, the trade and its validation, profit, the revenge rule,
--                the rolling average and the tilt index
--   Store        internal/store over the tables of migrations/001 to 003. `World` is the state
--                outside the process: tables, Redis data, clock, and a schedule of faults, one for
--                each call. A call is answered, refused, or carried out with its reply lost, so a
--                theorem over every schedule covers every failure of the network in any order.
--                Store/Rows is what a statement on trades returns, and Store/Scan how its columns
--                are read into a trade. Store/Pool is NewPool, by what each of its ten attempts
--                meets
--   Cache        internal/cache: a last loss, the sliding window, cached answers, the client, and the
--                event stream with its consumer group
--   Api          internal/api: the authentication (Auth), the answers, one module for each handler
--                of internal/api/handler (TradeHandler, SessionHandler, ProfileHandler,
--                MetricsHandler, HealthHandler), the logger with its response writer (Logger), and
--                the routes (Router). The goroutines that a handler starts are a list of tasks,
--                which run later, in any order, or not at all
--   Pipeline     internal/pipeline/worker.go: what the worker does for one event. Pipeline/Effects
--                takes it apart into calls, and Pipeline/Frames is about what its steps leave to
--                the later ones; Pipeline/Worker is the loop of Run, and
--                Pipeline/Worker/History the relation of what is published, handled and left
--   Start        cmd: the API server and the worker (Services), the migrations (Migrator), and a
--                token for a user (Token)
--   Tests        a platform of plain data, and the definitions and theorems at concrete inputs
--
-- How they interact: `start_api` connects and listens. `serve_http` logs a request and routes it;
-- `serve` authenticates it and dispatches it. `create` validates a request, checks its owner, reads
-- the last loss, writes the row with `upsert`, and starts the tasks of `side_effects`; the published
-- event is what `process_message` reads its fields from. `work` connects and runs the worker, whose
-- `loop` reads the group's next messages, and processes and confirms each.
-- Recursion is structural. Only the iteration of `invalidate_user` takes fuel, one for each page of
-- SCAN, which suffices when it exceeds the pages (Cache/Metrics/Invalidation). The worker's loop goes
-- on until its context is cancelled, so a context is the number of tests that find it alive. Sums
-- in the code that could leave int64 wrap around (Prelude/Int); counts of the analytics tables are
-- INT columns and a sum that does not fit is an error of the statement.
--
-- Not modelled: JSON and HTTP framing, the Recoverer, the signals but for the worker's cancelled
-- context, the shutdown of the server, the rows that a query has returned before it fails, and the
-- log lines other than a request's. Floats, the layouts of package time, the JSON
-- encoder, goose and the token library are parameters. The scores of the window are exact integers
-- (a float64 holds every millisecond up to the year 287396).
pub mod Prelude
pub mod Platform
pub mod Domain
pub mod Store
pub mod Cache
pub mod Api
pub mod Pipeline
pub mod Start
mod Tests
