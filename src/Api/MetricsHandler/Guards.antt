-- ===== src/Api/MetricsHandler/Guards.antt =====
-- Who is shown metrics, and what the request leaves alone.
use trade_journal.Prelude.{
  ◌⊎◌, String, ◌≡◌, ◌≢◌, refl, ◌∙◌, true, false, Option, none, some, List, [], ◌==◌, eq_iff,
  Bool-cases, inl, inr, Error, Result, ok, err, bad_request, duplicate, not_found, forbidden,
  unauthorized, unavailable, busy_group,
}
use trade_journal.Prelude.Time.{Time}
use trade_journal.Platform.{Platform, Payload}
use trade_journal.Cache.Metrics.{get_cached}
use trade_journal.Store.MetricsQueries.{
  MetricsBucket, EmotionWinRate, select_range, query_range, select_win_rates,
  query_emotion_win_rates, select_revenge, count_revenge_trades, select_overtrading,
  count_overtrading_events,
}
use trade_journal.Store.World.{World}
use trade_journal.Store.World.Frames.{query_frame, command_frame}
use trade_journal.Api.Response.{respond_forbidden}
use trade_journal.Api.TradeHandler.{Answer}
use trade_journal.Api.MetricsHandler.Query.{MetricsQuery, metrics_key, read_query}
use trade_journal.Api.MetricsHandler.{
  MetricsResponse, answer_metrics, answer_rates, answer_range, answer_lookup, answer_query, get,
}
use trade_journal.Api.MetricsHandler.Ranges.{
  IsRange, IsUnreadable, read_query-IsRange, IsRange-read_query,
}

module _ {p : Platform} (encode : MetricsResponse p → String) (trace user : String)
    (q : MetricsQuery) where
  answer_metrics_frame :
      (from to : Time) (buckets : List (MetricsBucket p)) (rates : List (EmotionWinRate p))
      (w : World p)
      → (answer_metrics encode user q from to buckets rates w).2.db ≡ w.db
  unfolding answer_metrics count_revenge_trades count_overtrading_events
  answer_metrics_frame from to buckets rates w =
      query_frame (select_overtrading user from to) _ ∙ query_frame (select_revenge user from to) w

  answer_rates_frame :
      (from to : Time) (buckets : List (MetricsBucket p))
      (x : Result (List (EmotionWinRate p)) × World p)
      → (answer_rates encode trace user q from to buckets x).2.db ≡ x.1.db
  answer_rates_frame from to buckets (err e, v) = refl
  answer_rates_frame from to buckets (ok rates, v) = answer_metrics_frame from to buckets rates v

  answer_range_frame :
      (from to : Time) (x : Result (List (MetricsBucket p)) × World p)
      → (answer_range encode trace user q from to x).2.db ≡ x.1.db
  unfolding query_emotion_win_rates
  answer_range_frame from to (err e, v) = refl
  answer_range_frame from to (ok buckets, v) =
      answer_rates_frame from to buckets (query_emotion_win_rates user from to v)
      ∙ query_frame (select_win_rates user from to) v

  answer_lookup_frame :
      (from to : Time) (interval : String) (x : Result (Option Payload) × World p)
      → (answer_lookup encode trace user q (from, to, interval) x).2.db ≡ x.1.db
  unfolding query_range
  answer_lookup_frame from to interval (ok (some t), v) = refl
  answer_lookup_frame from to interval (ok none, v) =
      answer_range_frame from to (query_range user from to interval v)
      ∙ query_frame (select_range user from to interval) v
  answer_lookup_frame from to interval (err e, v) =
      answer_range_frame from to (query_range user from to interval v)
      ∙ query_frame (select_range user from to interval) v

  answer_query_frame :
      (r : Result (Time × Time × String)) (w : World p)
      → (answer_query encode trace user q r w).2.db ≡ w.db
  unfolding get_cached
  answer_query_frame (err (bad_request m)) w = refl
  answer_query_frame (err duplicate) w = refl
  answer_query_frame (err not_found) w = refl
  answer_query_frame (err forbidden) w = refl
  answer_query_frame (err unauthorized) w = refl
  answer_query_frame (err busy_group) w = refl
  answer_query_frame (err unavailable) w = refl
  answer_query_frame (ok (from, to, interval)) w =
      answer_lookup_frame from to interval (get_cached (metrics_key user q) w) ∙ command_frame _ w

  -- An answer of 400 for parameters that are not read, without a call.
  abbrev pub IsBadRequest : World p → Answer p → Type 0
  IsBadRequest w (response, tasks, w') = (response.status ≡ 400) × (tasks ≡ []) × (w' ≡ w)

  answer_query-IsBadRequest :
      (e : Error) (w : World p) → IsBadRequest w (answer_query encode trace user q (err e) w)
  answer_query-IsBadRequest (bad_request m) w = (refl, refl, refl)
  answer_query-IsBadRequest duplicate w = (refl, refl, refl)
  answer_query-IsBadRequest not_found w = (refl, refl, refl)
  answer_query-IsBadRequest forbidden w = (refl, refl, refl)
  answer_query-IsBadRequest unauthorized w = (refl, refl, refl)
  answer_query-IsBadRequest busy_group w = (refl, refl, refl)
  answer_query-IsBadRequest unavailable w = (refl, refl, refl)

  -- A metrics request changes no table, whatever calls fail. For a user other than the token's it
  -- is answered with 403. Otherwise its parameters are two times that are there and parse, with one
  -- of the three granularities, or else it is answered with 400; neither of these answers makes a
  -- call or starts a goroutine.
  pub get-IsBadRequest :
      (sub : String) (w : World p)
      → ((get encode sub trace user q w).2.db ≡ w.db)
        × ((user ≡ sub) ⊎ (get encode sub trace user q w ≡ (respond_forbidden trace, [], w)))
        × ((user ≢ sub)
            ⊎ (((from : Time) × (to : Time) × (interval : String) × IsRange p q from to interval)
                ⊎ (IsUnreadable p q × IsBadRequest w (get encode sub trace user q w))))
  unfolding get
  get-IsBadRequest sub w = elim (Bool-cases (user == sub)) [
    | inl same ↦ rw same (
      answer_query_frame (read_query p q) w,
      inl ((eq_iff _ _).0 same),
      inr (by_read (read_query p q) refl),
    )
    | inr other ↦ rw other (refl, inr refl, inl (λ same. differ other ((eq_iff _ _).1 same)))
  ]
    where
      differ : (user == sub) ≡ false → (user == sub) ≡ true → ⊥
      differ h k = cc

      by_read :
          (r : Result (Time × Time × String))
          → read_query p q ≡ r
          → ((from : Time) × (to : Time) × (interval : String) × IsRange p q from to interval)
            ⊎ (IsUnreadable p q × IsBadRequest w (answer_query encode trace user q r w))
      by_read (ok (from, to, interval)) e =
          inl (from, to, interval, read_query-IsRange p q from to interval e)
      by_read (err x) e = inr (
        (λ from to interval h. let e' = IsRange-read_query p q h in cc),
        answer_query-IsBadRequest x w,
      )
