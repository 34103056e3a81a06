-- ===== src/Api/HealthHandler.antt =====
-- internal/api/handler/health.go: the health check, and the lag that it reads off a stream id.
pub mod Lag
pub mod Report
use Prim.Native.Char.{code}
use Prim.Native.String.{len, char_at}
use trade_journal.Prelude.{
  ℕ, zero, suc, ◌*◌, String, Bool, true, false, Option, none, some, List, [], ◌∷◌, eqb, ◌==◌,
  if◌then◌else◌, Result, ok, err,
}
use trade_journal.Prelude.Int.{ℤ, pos, ◌+ℤ◌, ◌-ℤ◌, ◌*ℤ◌, ltb_ℤ, wrap64}
use trade_journal.Prelude.Time.{unix_milli}
use trade_journal.Platform.{Platform}
use trade_journal.Store.World.{World, Call, call, statement}
use trade_journal.Cache.Stream.{info_stream}
use trade_journal.Api.Response.{Response, Health, health, respond_json}

-- The code points of a text, from an index on, so many.
abbrev codes_from : String → ℕ → ℕ → List ℕ
codes_from s i zero = []
codes_from s i (suc n) = code (char_at s i) ∷ codes_from s (suc i) n

unfoldable pub codes : String → List ℕ
codes s = codes_from s 0 (len s)

-- What stands before the first '-', if there is one.
unfoldable pub before_dash : List ℕ → Option (List ℕ)
before_dash [] = none
before_dash (c ∷ cs) =
    let rest = before_dash cs in
    if eqb c 45 then some [] else elim rest [ none ↦ none | some ds ↦ some (c ∷ ds) ]

-- `ts = ts*10 + int64(ch-'0')`, for each character
unfoldable pub read_number : ℤ → List ℕ → ℤ
read_number ts [] = ts
read_number ts (c ∷ cs) = read_number (wrap64 (wrap64 (ts *ℤ pos 10) +ℤ (pos c -ℤ pos 48))) cs

abbrev or_zero_time : Option (List ℕ) → ℤ
or_zero_time none = pos 0
or_zero_time (some digits) = read_number (pos 0) digits

abbrev at_least_zero : ℤ → ℤ
at_least_zero lag = if ltb_ℤ lag (pos 0) then pos 0 else lag

-- The milliseconds since the time in an id, none if there is no such time.
unfoldable pub lag_of : ℤ → List ℕ → ℤ
lag_of now id =
    let ts = or_zero_time (before_dash id) in
    if ltb_ℤ (pos 0) ts then at_least_zero (wrap64 (now -ℤ ts)) else pos 0

abbrev pub is_ok : Result (Unit {0}) → Bool
is_ok (err e) = false
is_ok (ok u) = true

module _ {p : Platform} where
  abbrev lag_or_zero : Result String × World p → ℤ × World p
  lag_or_zero (err e, w) = (pos 0, w)
  lag_or_zero (ok id, w) = (if id == "" then pos 0 else lag_of (unix_milli w.now) (codes id), w)

  unfoldable pub get_queue_lag : World p → ℤ × World p
  get_queue_lag w = lag_or_zero (info_stream "trades:events" w)

  -- `pool.Ping`
  unfoldable pub ping : Call p (Unit {0})
  ping = call (statement (λ _ d. (ok tt, d)))

  unfoldable pub check : World p → Response p × World p
  check w =
      let (pinged, w₁) = ping w in
      let db_status = if is_ok pinged then "connected" else "disconnected" in
      let (lag, w₂) = get_queue_lag w₁ in
      let status = if db_status == "disconnected" then "degraded" else "ok" in
      (
        respond_json 200 (
            health (record {
              status = status;
              db_connection = db_status;
              queue_lag = lag;
              timestamp = p.format_time w₂.now;
            })),
        w₂,
      )
