-- ===== src/Start/Services.antt =====
-- cmd/api/main.go and cmd/worker/main.go: connect, then serve or process.
pub mod Outcomes
use trade_journal.Prelude.{ℕ, ◌+◌, String, Option, none, some, Error, Result, ok, err}
use trade_journal.Platform.{Platform}
use trade_journal.Cache.Client.{new_redis_client}
use trade_journal.Cache.LastLoss.{join}
use trade_journal.Cache.Stream.{create_group}
use trade_journal.Pipeline.Worker.{run}
use trade_journal.Store.Pool.{Attempt, Dialled, pool, failed, new_pool}
use trade_journal.Store.World.{World}
use trade_journal.Start.{
  Environment, get_env, Exit, fatal, returned, default_database, default_secret,
}

-- The settings of cmd/api.
pub record Config : Type 0 where
  pub db_url : String
  pub redis_addr : String
  pub jwt_secret : String
  pub port : String

abbrev pub config_of : Environment → Config
config_of env = record {
  db_url = get_env env "DATABASE_URL" default_database;
  redis_addr = get_env env "REDIS_URL" "redis:6379";
  jwt_secret = get_env env "JWT_SECRET" default_secret;
  port = get_env env "PORT" "8080";
}

-- `http.Server`, with the secret that its router authenticates by.
pub record Server : Type 0 where
  pub addr : String
  pub secret : String

pub data Started : Type 0 where
  stopped : String → Started
  listening : Server → Started

-- What `ListenAndServe` returns: nil, `ErrServerClosed`, or another error.
pub data Listened : Type 0 where
  ended closed broken : Listened

module _ {p : Platform} where
  abbrev after_ping : Result (Unit {0}) × World p → Option String × World p
  after_ping (err e, w) = (some "failed to connect to Redis", w)
  after_ping (ok u, w) = (none, w)

  abbrev after_pool : Dialled → World p → Option String × World p
  after_pool (failed e) w = (some "failed to connect to PostgreSQL", w)
  after_pool (pool i) w = after_ping (new_redis_client w)

  -- The connections of both commands, with the message of a failure.
  unfoldable pub connect : (ℕ → Attempt) → World p → Option String × World p
  connect attempts w =
      let (dialled, dial) = new_pool attempts in
      after_pool dialled (record w { now = w.now + dial.slept })

  abbrev listen : Config → Option String × World p → Started × World p
  listen config (some message, w) = (stopped message, w)
  listen config (none, w) =
      let (ignored, v) = create_group "trades:events" "nevup-analytics" "0" w in
      (listening (record { addr = join ":" config.port; secret = config.jwt_secret }), v)

  -- `main` of cmd/api, up to `ListenAndServe`; the error of `CreateGroup` is ignored.
  unfoldable pub start_api : Environment → (ℕ → Attempt) → World p → Started × World p
  start_api env attempts w = listen (config_of env) (connect attempts w)

  abbrev after_run : Result (Unit {0}) × World p → Exit × World p
  after_run (err e, w) = (fatal "worker error", w)
  after_run (ok u, w) = (returned, w)

  abbrev work_on : ℕ → Option String × World p → Exit × World p
  work_on n (some message, w) = (fatal message, w)
  work_on n (none, w) = after_run (run n w)

  -- `main` of cmd/worker, whose context is cancelled by a signal after so many tests.
  unfoldable pub work : (ℕ → Attempt) → ℕ → World p → Exit × World p
  work attempts n w = work_on n (connect attempts w)

-- `main` of cmd/api, once the server has ended.
abbrev pub end_api : Listened → Exit
end_api ended = returned
end_api closed = returned
end_api broken = fatal "server error"
