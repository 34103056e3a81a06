-- ===== src/Store/Pool.antt =====
-- internal/store/db.go, NewPool: the attempts to connect to PostgreSQL.
pub mod Attempts
use trade_journal.Prelude.{ℕ, zero, suc, ◌+◌, ◌*◌, ◌^◌, min, Option, none, some, Error, unavailable}
use trade_journal.Prelude.Time.{Time, second}

-- What an attempt meets: `pgxpool.New` fails, the pool's ping fails, or neither.
pub data Attempt : Type 0 where
  refused silent connected : Attempt

-- The time slept, and the pools closed.
pub record Dial : Type 0 where
  pub slept : Time
  pub closed : ℕ

-- A pool, by the number of its attempt; or the text with the error that it wraps, which may be nil.
pub data Dialled : Type 0 where
  pool : ℕ → Dialled
  failed : Option Error → Dialled

-- `1<<uint(i)` seconds, at most `cap`
abbrev pub backoff : Time → ℕ → Time
backoff cap i = min (2 ^ i * second) cap

abbrev sleep : ℕ → Dial → Dial
sleep i d = record d { slept = d.slept + backoff (30 * second) i }

abbrev close : Dial → Dial
close d = record d { closed = suc d.closed }

-- The rounds that are left, from the i-th on; `e` is the variable `err`, which a failing ping does
-- not set.
unfoldable pub retry : ℕ → ℕ → (ℕ → Attempt) → Option Error → Dial → Dialled × Dial
retry zero i attempts e d = (failed e, d)
retry (suc left) i attempts e d = elim (attempts i) [
  | refused ↦ retry left (suc i) attempts (some unavailable) (sleep i d)
  | silent ↦ retry left (suc i) attempts none (sleep i (close d))
  | connected ↦ (pool i, d)
]

unfoldable pub new_pool : (ℕ → Attempt) → Dialled × Dial
new_pool attempts = retry 10 0 attempts none (record { slept = 0; closed = 0 })
