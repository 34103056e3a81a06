-- ===== src/Api/HealthHandler/Report.antt =====
-- What the health check reports.
use trade_journal.Prelude.{
  ℕ, String, ◌≡◌, refl, Bool, true, false, List, arith, ◌==◌, if◌then◌else◌, Bool-cases, inl, inr,
  Result, ok, err,
}
use trade_journal.Prelude.Int.{ℤ, pos, ◌-ℤ◌, wrap64, leb_ℤ, ltb_ℤ}
use trade_journal.Prelude.Time.{unix_milli}
use trade_journal.Platform.{Platform}
use trade_journal.Store.World.{World}
use trade_journal.Store.World.Frames.{call_keeps}
use trade_journal.Cache.Stream.{info_stream}
use trade_journal.Api.Response.{Response, Health, health}
use trade_journal.Api.HealthHandler.{
  codes, lag_of, at_least_zero, or_zero_time, before_dash, lag_or_zero, get_queue_lag, ping, is_ok,
  check,
}

abbrev IsLag : ℤ → Type 0
IsLag z = leb_ℤ (pos 0) z ≡ true

at_least_zero-IsLag : (z : ℤ) → IsLag (at_least_zero z)
at_least_zero-IsLag z = ground arith

if_IsLag : (b : Bool) (z : ℤ) → IsLag z → IsLag (if b then z else pos 0)
if_IsLag true z h = h
if_IsLag false z h = refl

lag_of-IsLag : (now : ℤ) (id : List ℕ) → IsLag (lag_of now id)
unfolding lag_of
lag_of-IsLag now id =
    let ts : ℤ = or_zero_time (before_dash id) in
    let lag : ℤ = wrap64 (now -ℤ ts) in
    if_IsLag (ltb_ℤ (pos 0) ts) (at_least_zero lag) (at_least_zero-IsLag lag)

module _ {p : Platform} (w : World p) where
  -- The answer to a health check, for a ping that is answered or not.
  pub record Reports (answered : Bool) (x : Response p × World p) : Type 0 where
    pub status : x.0.status ≡ 200
    pub report : Health
    pub body : x.0.body ≡ health report
    pub said : report.status ≡ (if answered then "ok" else "degraded")
    pub connection : report.db_connection ≡ (if answered then "connected" else "disconnected")
    pub lag : IsLag report.queue_lag
    pub same_tables : x.1.db ≡ w.db
    pub same_redis : x.1.redis ≡ w.redis

  lag_or_zero-IsLag : (x : Result String × World p) → IsLag (lag_or_zero x).0
  lag_or_zero-IsLag (err e, v) = refl
  lag_or_zero-IsLag (ok id, v) = elim (Bool-cases (id == "")) [
    | inl e ↦ rw e refl
    | inr e ↦ rw e (lag_of-IsLag (unix_milli v.now) (codes id))
  ]

  lag_or_zero_frame : (x : Result String × World p) → (lag_or_zero x).1 ≡ x.1
  lag_or_zero_frame (err e, v) = refl
  lag_or_zero_frame (ok id, v) = refl

  abbrev Same : World p → Type 0
  Same v = (v.db ≡ w.db) × (v.redis ≡ w.redis)

  ping-Same : Same (ping w).1
  unfolding ping
  ping-Same = call_keeps Same _ (λ v h. h) (λ v s h. h) w (refl, refl)

  lag-Same : (v : World p) → Same v → Same (get_queue_lag v).1
  unfolding get_queue_lag info_stream
  lag-Same v h =
      rw (lag_or_zero_frame (info_stream "trades:events" v))
        (call_keeps Same _ (λ u k. k) (λ u s k. k) v h)

  -- A health check is answered with 200 and changes nothing. It says "ok" if PostgreSQL answers the
  -- ping and "degraded" if not, whether or not Redis answers; its lag is never negative.
  pub check-Reports : Reports (is_ok (ping w).0) (check w)
  unfolding check get_queue_lag
  check-Reports =
      let same = lag-Same (ping w).1 ping-Same in
      record {
        status = refl;
        report = _;
        body = refl;
        said = elim (Bool-cases (is_ok (ping w).0)) [ inl e ↦ rw e refl | inr e ↦ rw e refl ];
        connection = refl;
        lag = lag_or_zero-IsLag (info_stream "trades:events" (ping w).1);
        same_tables = same.0;
        same_redis = same.1;
      }
