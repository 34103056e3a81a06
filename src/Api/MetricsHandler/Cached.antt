-- ===== src/Api/MetricsHandler/Cached.antt =====
-- What a metrics request is answered while an answer is cached.
use trade_journal.Prelude.{
  ℕ, ◌+◌, ◌*◌, String, ◌≡◌, refl, ap, ◌∙◌, Bool, true, false, none, some, [], ok, ltb,
  if◌then◌else◌, eq_refl,
}
use trade_journal.Prelude.Time.{Time, minute}
use trade_journal.Platform.{Platform, bytes}
use trade_journal.Platform.Laws.{KeyLaws}
use trade_journal.Store.World.{World}
use trade_journal.Store.MetricsQueries.{query_range}
use trade_journal.Cache.Metrics.Laws.{get-set_cached}
use trade_journal.Api.Response.{raw, respond_json}
use trade_journal.Api.TradeHandler.{run_task, cache_answer}
use trade_journal.Api.MetricsHandler.{MetricsResponse, answer_range, answer_lookup, get}
use trade_journal.Api.MetricsHandler.Query.{MetricsQuery, metrics_key, read_query}

module _ {p : Platform} (laws : KeyLaws p) (encode : MetricsResponse p → String) where
  by_age :
      (b : Bool) (trace user text : String) (q : MetricsQuery) (from to : Time) (interval : String)
      (v : World p)
      → answer_lookup encode trace user q
          (from, to, interval)
          (ok (if b then some (bytes text) else none), v)
        ≡ (if b
            then (respond_json 200 (raw text), [], v)
            else answer_range encode trace user q from to (query_range user from to interval v))
  by_age true trace user text q from to interval v = refl
  by_age false trace user text q from to interval v = refl

  -- An answer has been cached, Redis answering. A request with the same parameters by the same user,
  -- at a time when Redis answers again and the entry of the key reads as the caching has left it, is
  -- answered with these bytes for less than five minutes, whatever the tables and the other keys of
  -- Redis hold by then; from then on it is answered from the tables.
  pub get_repeats :
      (trace user text : String) (q : MetricsQuery) (from to : Time) (interval : String)
      (w v : World p) (d : ℕ)
      → read_query p q ≡ ok (from, to, interval)
      → w.schedule ≡ []
      → v.schedule ≡ []
      → p.redis_get v.redis v.now (metrics_key user q)
        ≡ p.redis_get
            (run_task (cache_answer (metrics_key user q) text) w).redis
            v.now
            (metrics_key user q)
      → v.now ≡ w.now + d
      → get encode user trace user q v ≡ (
          if ltb d (5 * minute)
          then (respond_json 200 (raw text), [], v)
          else answer_range encode trace user q from to (query_range user from to interval v))
  unfolding get run_task
  get_repeats trace user text q from to interval w v d read quiet still same later =
      let found = get-set_cached laws (metrics_key user q) text w v d quiet still same later in
      rw (eq_refl user, read)
        (ap (answer_lookup encode trace user q (from, to, interval)) found
          ∙ by_age (ltb d (5 * minute)) trace user text q from to interval v)
