-- ===== src/Start/Services/Outcomes.antt =====
-- When the services start, and what they leave.
use trade_journal.Prelude.{
  ℕ, ◌+◌, String, ◌≡◌, refl, sym, ap, subst, ◌∙◌, Option, none, some, List, [], length, Error,
  Result, ok, err,
}
use trade_journal.Prelude.Search.{first_from}
use trade_journal.Platform.{Platform}
use trade_journal.Cache.Client.{new_redis_client}
use trade_journal.Cache.LastLoss.{join}
use trade_journal.Cache.Stream.{create_group}
use trade_journal.Pipeline.{Fields}
use trade_journal.Pipeline.Worker.{loop}
use trade_journal.Pipeline.Worker.History.{History}
use trade_journal.Pipeline.Worker.Totals.{IsSound}
use trade_journal.Store.Metrics.Sums.{counted}
use trade_journal.Store.Pool.{Attempt, new_pool}
use trade_journal.Store.Pool.Attempts.{succeeds, or_failed, new_pool-IsDialled}
use trade_journal.Store.World.{World}
use trade_journal.Store.World.Frames.{call_keeps, command_frame}
use trade_journal.Start.{Environment, Exit, fatal, returned}
use trade_journal.Start.Services.{
  config_of, Server, Started, stopped, listening, after_ping, after_pool, connect, listen,
  start_api,
}

-- The server that cmd/api starts.
abbrev server_of : Environment → Server
server_of env =
    let config = config_of env in record { addr = join ":" config.port; secret = config.jwt_secret }

-- How cmd/api starts, by the first attempt that connects to PostgreSQL.
pub data Starts (env : Environment) (attempts : ℕ → Attempt) : Started → Type 0 where
  without_database :
      first_from 10 0 (succeeds attempts) ≡ none
      → Starts env attempts (stopped "failed to connect to PostgreSQL")
  without_redis :
      (i : ℕ)
      → first_from 10 0 (succeeds attempts) ≡ some i
      → Starts env attempts (stopped "failed to connect to Redis")
  serves :
      (i : ℕ)
      → first_from 10 0 (succeeds attempts) ≡ some i
      → Starts env attempts (listening (server_of env))

module _ {p : Platform} where
  create_group_frame :
      (stream group from : String) (w : World p) → (create_group stream group from w).1.db ≡ w.db
  unfolding create_group
  create_group_frame stream group from w =
      call_keeps (λ v. v.db ≡ w.db) _ (λ v h. h) (λ v s h. h) w refl

  -- The world after the attempts to connect to PostgreSQL, and after the ping of Redis.
  abbrev pub dialled : (ℕ → Attempt) → World p → World p
  dialled attempts w = record w { now = w.now + (new_pool attempts).1.slept }

  abbrev pub pinged : (ℕ → Attempt) → World p → Result (Unit {0}) × World p
  pinged attempts w = new_redis_client (dialled attempts w)

  -- The connections are made, or which is not.
  data Connects (attempts : ℕ → Attempt) (w : World p) : Option String × World p → Type 0 where
    no_database :
        first_from 10 0 (succeeds attempts) ≡ none
        → Connects attempts w (some "failed to connect to PostgreSQL", dialled attempts w)
    no_redis :
        (i : ℕ) (e : Error)
        → first_from 10 0 (succeeds attempts) ≡ some i
        → (pinged attempts w).0 ≡ err e
        → Connects attempts w (some "failed to connect to Redis", (pinged attempts w).1)
    connects :
        (i : ℕ)
        → first_from 10 0 (succeeds attempts) ≡ some i
        → (pinged attempts w).0 ≡ ok tt
        → Connects attempts w (none, (pinged attempts w).1)

  -- The ping leaves the tables as they are.
  pinged_frame : (attempts : ℕ → Attempt) (w : World p) → (pinged attempts w).1.db ≡ w.db
  unfolding new_redis_client
  pinged_frame attempts w = command_frame _ (dialled attempts w)

  after_pool-Connects :
      (attempts : ℕ → Attempt) (w : World p) (e : Option Error) (o : Option ℕ)
      → first_from 10 0 (succeeds attempts) ≡ o
      → Connects attempts w (after_pool (or_failed e o) (dialled attempts w))
  after_pool-Connects attempts w e none first = no_database first
  after_pool-Connects attempts w e (some i) first = by_ping (pinged attempts w) refl
    where
      by_ping :
          (x : Result (Unit {0}) × World p)
          → pinged attempts w ≡ x
          → Connects attempts w (after_ping x)
      by_ping (err z, u) same =
          subst (λ v. Connects attempts w (some "failed to connect to Redis", v))
            (ap (λ x. x.1) same) (no_redis i z first (ap (λ x. x.0) same))
      by_ping (ok z, u) same =
          subst (λ v. Connects attempts w (none, v)) (ap (λ x. x.1) same)
            (connects i first (ap (λ x. x.0) same))

  connect-Connects :
      (attempts : ℕ → Attempt) (w : World p) → Connects attempts w (connect attempts w)
  unfolding connect
  connect-Connects attempts w =
      let result = (new_pool-IsDialled attempts).result in
      subst (λ d. Connects attempts w (after_pool d (dialled attempts w))) (sym result)
        (after_pool-Connects attempts w _ _ refl)

  -- The API server listens, on the port and with the secret of its environment or of the source, only
  -- if one of ten attempts connects to PostgreSQL and Redis answers a ping; otherwise it stops with
  -- the message of the first that failed. A consumer group that cannot be created does not stop it,
  -- and the tables are as before.
  pub start_api-Starts :
      (env : Environment) (attempts : ℕ → Attempt) (w : World p)
      → let (started, v) = start_api env attempts w in Starts env attempts started × (v.db ≡ w.db)
  unfolding start_api
  start_api-Starts env attempts w = by_connection (connect attempts w) (connect-Connects attempts w)
    where
      by_connection :
          (x : Option String × World p)
          → Connects attempts w x
          → let (started, v) = listen (config_of env) x in
            Starts env attempts started × (v.db ≡ w.db)
      by_connection _ (no_database first) = (without_database first, refl)
      by_connection _ (no_redis i e first ping) = (without_redis i first, pinged_frame attempts w)
      by_connection _ (connects i first ping) = (
        serves i first,
        create_group_frame "trades:events" "nevup-analytics" "0" (pinged attempts w).1
            ∙ pinged_frame attempts w,
      )

  -- The consumer group is created, or was there.
  abbrev pub grouped : (ℕ → Attempt) → World p → Result (Unit {0}) × World p
  grouped attempts w = create_group "trades:events" "nevup-analytics" "0" (pinged attempts w).1

  -- How cmd/worker ends: it stops with the message of what could not be made, the tables being as
  -- before, or returns after a history of events.
  pub data Works (attempts : ℕ → Attempt) (n : ℕ) (w : World p) : Exit × World p → Type 0 where
    without_database :
        first_from 10 0 (succeeds attempts) ≡ none
        → Works attempts n w (fatal "failed to connect to PostgreSQL", dialled attempts w)
    without_redis :
        (i : ℕ) (e : Error)
        → first_from 10 0 (succeeds attempts) ≡ some i
        → (pinged attempts w).0 ≡ err e
        → (pinged attempts w).1.db ≡ w.db
        → Works attempts n w (fatal "failed to connect to Redis", (pinged attempts w).1)
    without_group :
        (i : ℕ) (e : Error)
        → first_from 10 0 (succeeds attempts) ≡ some i
        → (pinged attempts w).0 ≡ ok tt
        → (grouped attempts w).0 ≡ err e
        → (grouped attempts w).1.db ≡ w.db
        → Works attempts n w (fatal "worker error", (grouped attempts w).1)
    processes :
        (i : ℕ) {hs : List Fields}
        → first_from 10 0 (succeeds attempts) ≡ some i
        → (pinged attempts w).0 ≡ ok tt
        → (grouped attempts w).0 ≡ ok tt
        → (grouped attempts w).1.db ≡ w.db
        → History (grouped attempts w).1 [] hs (loop n (grouped attempts w).1)
        → IsSound (counted w.db) (length hs) (loop n (grouped attempts w).1).db
        → Works attempts n w (returned, loop n (grouped attempts w).1)
