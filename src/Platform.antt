-- ===== src/Platform.antt =====
-- What the program runs on and does not implement: the decimal library (shopspring/decimal), Go's
-- float64, the column types of PostgreSQL, and the Redis server behind go-redis. The types and the
-- operations are one parameter of the model; the documented laws of each part stand in records of
-- their own, which the theorems that need them take.
pub mod Laws
use trade_journal.Prelude.{ℕ, String, Bool, Option, List}
use trade_journal.Prelude.Int.{ℤ}
use trade_journal.Prelude.Time.{Time}

-- A value of a Redis string: an integer, kept as its decimal digits, or other bytes.
pub data Payload : Type 0 where
  digits : ℤ → Payload
  bytes : String → Payload

-- A value in the map that `XAdd` is given.
pub data Arg : Type 0 where
  str : String → Arg
  int : ℤ → Arg
  bool : Bool → Arg

-- An entry of a stream, as XREADGROUP returns it.
pub record Message : Type 0 where
  pub id : String
  pub values : List (String × String)

pub record Platform : Type 1 where
  -- shopspring/decimal: Zero, Add, Sub, Mul, IsZero, IsPositive, String, NewFromString
  pub Decimal : Type 0
  pub dec_zero : Decimal
  pub dec_add : Decimal → Decimal → Decimal
  pub dec_sub : Decimal → Decimal → Decimal
  pub dec_mul : Decimal → Decimal → Decimal
  pub dec_is_zero : Decimal → Bool
  pub dec_is_positive : Decimal → Bool
  pub dec_show : Decimal → String
  pub dec_parse : String → Option Decimal
  -- float64: float64(n), x + y, x / y, x > y
  pub Float : Type 0
  pub to_float : ℤ → Float
  pub float_add : Float → Float → Float
  pub float_div : Float → Float → Float
  pub float_gt : Float → Float → Bool
  -- What a column holds for a parameter of the statement, `none` where the server refuses it:
  -- UUID, TEXT, NUMERIC(18,8), NUMERIC(5,4), TIMESTAMPTZ, DATE. `numeric_add` is `+` on NUMERIC(18,8).
  pub uuid : String → Option String
  pub text : String → Option String
  pub numeric : Decimal → Option Decimal
  pub numeric_add : Decimal → Decimal → Option Decimal
  pub ratio : Float → Option Float
  -- `ABS(x) > n`, and `x > AVG(…) * 1.5` over the column's values
  pub abs_exceeds : Decimal → ℕ → Bool
  pub exceeds_average : Decimal → List Decimal → Bool
  pub timestamp : Time → Time
  pub date : Time → Time
  -- EXTRACT(HOUR FROM …) in the zone of the connection
  pub hour_of : Time → ℕ
  -- time_bucket of TimescaleDB, for an interval; AVG of NUMERIC(5,4), NULL for no values
  pub time_bucket : String → Time → Time
  pub average : List Float → Option Float
  -- decimal's Float64
  pub dec_float : Decimal → Float
  -- `ORDER BY`, by the test that a row may stand before another.
  pub order_by : (A : Type 0) → (A → A → Bool) → List A → List A
  -- time.Format and time.Parse with the layout RFC3339
  pub format_time : Time → String
  pub parse_time : String → Option Time
  -- time.Format with the layout "January 2, 2006", and strings.Fields
  pub format_date : Time → String
  pub fields : String → List String
  -- gen_random_uuid(), for the n-th row of a table
  pub gen_uuid : ℕ → String
  -- The server's data, and its commands: GET and SET with an expiry, ZADD NX, ZREMRANGEBYSCORE,
  -- ZCOUNT up to +inf, XADD. `arg_text` is the text that go-redis sends for an argument.
  pub Redis : Type 0
  pub redis_get : Redis → Time → String → Option Payload
  pub redis_set : Redis → Time → String → Payload → ℕ → Redis
  -- SCAN from a cursor for a pattern, with a count: the next cursor, 0 at the end, and keys; DEL
  pub redis_scan : Redis → Time → ℕ → String → ℕ → ℕ × List String
  pub redis_del : Redis → String → Redis
  pub zadd_nx : Redis → String → ℤ → String → Redis
  pub zremrangebyscore : Redis → String → ℤ → ℤ → Redis
  pub zcount_from : Redis → String → ℤ → ℕ
  -- The same with bounds as texts (`none`: a bound is no float)
  pub zremrangebyscore_text : Redis → String → String → String → Option Redis
  pub zcount_text : Redis → String → String → String → Option ℕ
  pub xadd : Redis → String → List (String × String) → Redis
  pub arg_text : Arg → String
  -- XGROUP CREATE … MKSTREAM (`none`: the group is there), XREADGROUP of the new messages of a
  -- stream, at most so many and waiting so long (`none`: the reply nil, there was no message),
  -- XACK, XINFO STREAM for the id of the last entry (`none`: no such key)
  pub xgroup_create : Redis → String → String → String → Option Redis
  pub xreadgroup :
      Redis → String → String → String → ℕ → ℕ → Option (List (String × List Message) × Redis)
  pub xack : Redis → String → String → String → Redis
  pub last_entry_id : Redis → String → Option String
