-- ===== src/Start/Migrator.antt =====
-- cmd/migrator/main.go: wait for PostgreSQL, then run the migrations.
use trade_journal.Prelude.{
  ℕ, zero, suc, ◌+◌, ◌*◌, ◌≤◌, ◌≡◌, refl, String, Bool, true, false, Option, none, some, arith,
  Error, Result, ok, err, unavailable,
}
use trade_journal.Prelude.Search.{first_from, sum_before, sum_before-le}
use trade_journal.Prelude.Time.{Time, second}
use trade_journal.Platform.{Platform}
use trade_journal.Store.World.{World, Call}
use trade_journal.Store.Pool.{backoff}
use trade_journal.Start.{Environment, get_env, Exit, fatal, returned}

-- What an attempt meets: `sql.Open` fails, the ping of two seconds fails, or neither.
pub data Opening : Type 0 where
  unopened unanswered answered : Opening

-- The rounds that are left, from the i-th on: the variable `err` and the time slept, at their end.
unfoldable pub wait_for : ℕ → ℕ → (ℕ → Opening) → Option Error → Time → Option Error × Time
wait_for zero i openings e slept = (e, slept)
wait_for (suc left) i openings e slept = elim (openings i) [
  | unopened ↦ wait_for left (suc i) openings (some unavailable) (slept + backoff (10 * second) i)
  | unanswered ↦ wait_for left (suc i) openings (some unavailable) (slept + backoff (10 * second) i)
  | answered ↦ (none, slept)
]

module _ {p : Platform} where
  abbrev pub after_up : Result (Unit {0}) × World p → Exit × World p
  after_up (err e, w) = (fatal "migration failed", w)
  after_up (ok u, w) = (returned, w)

  abbrev after_wait :
      (String → Call p (Unit {0})) → Environment → Option Error → World p → Exit × World p
  after_wait goose_up env (some e) w = (fatal "failed to connect to PostgreSQL after retries", w)
  after_wait goose_up env none w =
      after_up (goose_up (get_env env "MIGRATIONS_DIR" "/app/migrations") w)

  -- `main`; `goose_up` is the library's call, for the directory of the migrations.
  unfoldable pub migrate :
      (String → Call p (Unit {0})) → Environment → (ℕ → Opening) → World p → Exit × World p
  migrate goose_up env openings w =
      let (e, slept) = wait_for 20 0 openings none 0 in
      after_wait goose_up env e (record w { now = w.now + slept })

abbrev pub is_answered : Opening → Bool
is_answered answered = true
is_answered unopened = false
is_answered unanswered = false

module _ (openings : ℕ → Opening) where
  abbrev pub answers : ℕ → Bool
  answers i = is_answered (openings i)

  -- The error of a wait that may have failed.
  abbrev error_unless : Option ℕ → Option Error
  error_unless none = some unavailable
  error_unless (some i) = none

  record Waits (n i : ℕ) (slept : Time) (x : Option Error × Time) : Type 0 where
    pub error : x.0 ≡ error_unless (first_from n i answers)
    pub time : x.1 ≡ slept + sum_before n i answers (backoff (10 * second))

  round-Waits :
      (n i : ℕ) (e : Option Error) (slept : Time)
      → ((slept : Time)
          → Waits n (suc i) slept (wait_for n (suc i) openings (some unavailable) slept))
      → (o : Opening) → openings i ≡ o
      → Waits (suc n) i slept (wait_for (suc n) i openings e slept)
  unfolding wait_for
  round-Waits n i e slept later unopened h =
      let rest = later (slept + backoff (10 * second) i) in
      record {
        error = rw (h, wait_for) rest.error;
        time = rw (h, wait_for) (omega (arith, rest.time));
      }
  round-Waits n i e slept later unanswered h =
      let rest = later (slept + backoff (10 * second) i) in
      record {
        error = rw (h, wait_for) rest.error;
        time = rw (h, wait_for) (omega (arith, rest.time));
      }
  round-Waits n i e slept later answered h = record {
    error = rw (h, wait_for) refl;
    time = rw (h, wait_for) (omega arith);
  }

  wait_for-Waits :
      (n i : ℕ) (slept : Time) → Waits n i slept (wait_for n i openings (some unavailable) slept)
  unfolding wait_for
  wait_for-Waits zero i slept = record { error = refl; time = omega arith }
  wait_for-Waits (suc n) i slept =
      round-Waits n i (some unavailable) slept (wait_for-Waits n (suc i)) (openings i) refl

  waited :
      let (e, slept) = wait_for 20 0 openings none 0 in
      (e ≡ error_unless (first_from 20 0 answers))
      × (slept ≡ sum_before 20 0 answers (backoff (10 * second)))
  waited =
      let waits = round-Waits 19 0 none 0 (wait_for-Waits 19 1) (openings 0) refl in
      (waits.error, omega (arith, waits.time))

  -- The migrator ends after twenty attempts at most, between which it has slept 1, 2, 4, 8 and then
  -- 10 seconds, 175 seconds at most. It runs the migrations, those of MIGRATIONS_DIR or of
  -- /app/migrations, if and only if one of the attempts is answered; otherwise the tables are as
  -- before.
  pub migrate_ends :
      {p : Platform} (goose_up : String → Call p (Unit {0})) (env : Environment) (w : World p)
      → let slept = sum_before 20 0 answers (backoff (10 * second)) in
        let v : World p = record w { now = w.now + slept } in
        (migrate goose_up env openings w ≡ elim (first_from 20 0 answers) [
          | none ↦ (fatal "failed to connect to PostgreSQL after retries", v)
          | some i ↦ after_up (goose_up (get_env env "MIGRATIONS_DIR" "/app/migrations") v)
        ])
        × (slept ≤ 175 * second)
  unfolding migrate
  migrate_ends goose_up env w =
      let (error, time) = waited in
      let slept = sum_before 20 0 answers (backoff (10 * second)) in
      let most = sum_before-le 20 0 answers (backoff (10 * second)) in
      (
        rw (error, time) (by_first (first_from 20 0 answers) (record w { now = w.now + slept })),
        omega (arith, most),
      )
    where
      by_first :
          (o : Option ℕ) (v : World _)
          → after_wait goose_up env (error_unless o) v ≡ elim o [
            | none ↦ (fatal "failed to connect to PostgreSQL after retries", v)
            | some i ↦ after_up (goose_up (get_env env "MIGRATIONS_DIR" "/app/migrations") v)
          ]
      by_first none v = refl
      by_first (some i) v = refl
