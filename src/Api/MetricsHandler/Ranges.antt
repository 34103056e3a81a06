-- ===== src/Api/MetricsHandler/Ranges.antt =====
-- Which query parameters of GET /users/{userId}/metrics can be read.
use mathlib.Core.Option.{some-injective}
use trade_journal.Prelude.{
  sym, ap, ok-injective, ◌⊎◌, String, ◌≡◌, ◌≢◌, refl, false, Option, none, some, ◌==◌, eq_iff,
  Bool-cases, inl, inr, ok,
}
use trade_journal.Prelude.Time.{Time}
use trade_journal.Platform.{Platform}
use trade_journal.Api.MetricsHandler.Query.{MetricsQuery, interval_of, with_from, read_query}

-- The granularities and their intervals.
abbrev IsInterval : String → String → Type 0
IsInterval granularity interval =
    ((granularity ≡ "hourly") × (interval ≡ "1 hour"))
    ⊎ (((granularity ≡ "daily") × (interval ≡ "1 day"))
        ⊎ ((granularity ≡ "rolling30d") × (interval ≡ "30 days")))

-- Parameters that are there and can be read, with the times and the interval that they name.
pub record IsRange (p : Platform) (q : MetricsQuery) (from to : Time) (interval : String)
    : Type 0 where
  pub has_from : q.from_str ≢ ""
  pub has_to : q.to_str ≢ ""
  pub from_time : p.parse_time q.from_str ≡ some from
  pub to_time : p.parse_time q.to_str ≡ some to
  pub period : IsInterval q.granularity interval

interval_of-IsInterval :
    (granularity interval : String)
    → interval_of granularity ≡ some interval
    → IsInterval granularity interval
unfolding interval_of
interval_of-IsInterval g i e = elim (Bool-cases (g == "hourly")) [
  | inl h ↦ inl ((eq_iff _ _).0 h, sym (some-injective _ _ (rw h at e)))
  | inr nh ↦ elim (Bool-cases (g == "daily")) [
    | inl d ↦ inr (inl ((eq_iff _ _).0 d, sym (some-injective _ _ (rw (nh, d) at e))))
    | inr nd ↦ elim (Bool-cases (g == "rolling30d")) [
      | inl r ↦ inr (inr ((eq_iff _ _).0 r, sym (some-injective _ _ (rw (nh, nd, r) at e))))
      | inr nr ↦ let e' = rw (nh, nd, nr) at e in cc
    ]
  ]
]

IsInterval-interval_of :
    (granularity interval : String)
    → IsInterval granularity interval
    → interval_of granularity ≡ some interval
unfolding interval_of
IsInterval-interval_of g i (inl (h, k)) = rw (h, k) refl
IsInterval-interval_of g i (inr (inl (h, k))) = rw (h, k) refl
IsInterval-interval_of g i (inr (inr (h, k))) = rw (h, k) refl

with_from-read :
    (f t : Option Time) (i : Option String) {from to : Time} {interval : String}
    → with_from f t i ≡ ok (from, to, interval)
    → (f ≡ some from) × (t ≡ some to) × (i ≡ some interval)
with_from-read none t i e = cc
with_from-read (some a) none i e = cc
with_from-read (some a) (some b) none e = cc
with_from-read (some a) (some b) (some c) e =
    let same = ok-injective e in
    (ap (λ x. some x.0) same, ap (λ x. some x.1) same, ap (λ x. some x.2) same)

unequal : (s t : String) → s ≢ t → (s == t) ≡ false
unequal s t h = elim (Bool-cases (s == t)) [
  | inl same ↦ absurd (h ((eq_iff s t).0 same))
  | inr other ↦ other
]

distinct : (s t : String) → (s == t) ≡ false → s ≢ t
distinct s t h same = let e = (eq_iff s t).1 same in cc

not_empty : (g i : String) → IsInterval g i → (g == "") ≡ false
not_empty g i (inl (h, k)) = rw h refl
not_empty g i (inr (inl (h, k))) = rw h refl
not_empty g i (inr (inr (h, k))) = rw h refl

module _ (p : Platform) (q : MetricsQuery) where
  -- What is read is a range.
  pub read_query-IsRange :
      (from to : Time) (interval : String)
      → read_query p q ≡ ok (from, to, interval)
      → IsRange p q from to interval
  unfolding read_query
  read_query-IsRange from to interval e = elim (Bool-cases (q.from_str == "")) [
    | inl none_given ↦ let e' = rw none_given at e in cc
    | inr has_from ↦ elim (Bool-cases (q.to_str == "")) [
      | inl none_given ↦ let e' = rw (has_from, none_given) at e in cc
      | inr has_to ↦ elim (Bool-cases (q.granularity == "")) [
        | inl none_given ↦ let e' = rw (has_from, has_to, none_given) at e in cc
        | inr given ↦
            let (from_time, to_time, period) =
              with_from-read (p.parse_time q.from_str) (p.parse_time q.to_str)
                (interval_of q.granularity) (rw (has_from, has_to, given) at e) in
            record {
              has_from = distinct q.from_str "" has_from;
              has_to = distinct q.to_str "" has_to;
              from_time = from_time;
              to_time = to_time;
              period = interval_of-IsInterval q.granularity interval period;
            }
      ]
    ]
  ]

  -- A range is read.
  pub IsRange-read_query :
      {from to : Time} {interval : String}
      → IsRange p q from to interval
      → read_query p q ≡ ok (from, to, interval)
  unfolding read_query
  IsRange-read_query {from} {to} {interval} h =
      rw
        (
          unequal q.from_str "" h.has_from,
          unequal q.to_str "" h.has_to,
          not_empty q.granularity interval h.period,
          h.from_time,
          h.to_time,
          IsInterval-interval_of q.granularity interval h.period,
        )
        refl

  -- Parameters of which one is missing or cannot be read.
  abbrev pub IsUnreadable : Type 0
  IsUnreadable = (from to : Time) (interval : String) → ¬ IsRange p q from to interval
