-- ===== src/Tests/AccessTests.antt =====
-- The authentication and the routes at concrete headers.
use mathlib.Core.Option.{some-injective}
use trade_journal.Prelude.Int.{pos}
use trade_journal.Prelude.Time.{Time, second}
use trade_journal.Api.Response.{respond_forbidden}
use trade_journal.Prelude.{
  ◌+◌, ◌*◌, ◌⊎◌, ok, err, bad_request, ◌≡◌, ◌≢◌, refl, sym, ap, ◌∙◌, subst, String, Bool, true,
  false, Option, none, some, List, [], ◌∷◌, ◌==◌, if◌then◌else◌, Bool-cases, inl, inr, eq_iff,
  arith,
}
use trade_journal.Store.World.{World, refused}
use trade_journal.Api.Auth.{
  Claim, text, Parsed, failed, parsed, Admission, rejects, passes, authenticate, split_two,
  is_bearer, is_hmac, key_of, sub_of,
}
use trade_journal.Api.Auth.Access.{JwtLaws, IsAdmission, authenticate-IsAdmission}
use trade_journal.Api.TradeHandler.{decoded}
use trade_journal.Api.TradeHandler.Tenancy.{trades_of_user}
use trade_journal.Api.MetricsHandler.Query.{MetricsQuery, metrics_key, read_query, interval_of}
use trade_journal.Api.MetricsHandler
use trade_journal.Api.MetricsHandler.Cached.{get_repeats}
use trade_journal.Api.Response.{raw, respond_json}
use trade_journal.Api.TradeHandler.{run_task, cache_answer, store_last_loss}
use trade_journal.Tests.MachineLaws.{keys}
use trade_journal.Api.MetricsHandler.Ranges.{IsRange, IsUnreadable}
use trade_journal.Api.MetricsHandler.Guards.{IsBadRequest, get-IsBadRequest}
use trade_journal.Api.Router.{Encoders, Request, post_trade, Route, protected, Texts, serve_http}
use trade_journal.Api.Router.Isolation.{header_of, serve_http_isolated}
use trade_journal.Tests.Machine.{machine}
use trade_journal.Tests.Fixtures.{losing_trade, copied_input, world_of}

-- A library with one token, which is signed with "s3" under HS256 for Kim.
abbrev kims_claims : Option (List (String × Claim))
kims_claims = some (("sub", text "kim") ∷ [])

abbrev checked : Option String → Parsed
checked none = failed "signature is invalid"
checked (some key) = if key == "s3" then parsed true kims_claims else failed "signature is invalid"

abbrev jwt_parse : (String → Option String) → String → Parsed
jwt_parse keys token = if token == "kims" then checked (keys "HS256") else failed "token is expired"

abbrev Signed : String → String → String → Type 0
Signed method key token = (method ≡ "HS256") × (key ≡ "s3") × (token ≡ "kims")

-- Kim's header is accepted, an expired token is not.
kim_passes :
    ◌≡◌ {A = Admission machine} (authenticate jwt_parse "s3" "trace" "bearer kims") (passes "kim")
unfolding authenticate split_two is_bearer is_hmac key_of sub_of
kim_passes = refl

abbrev status_of : Admission machine → trade_journal.Prelude.ℕ
status_of (rejects r) = r.status
status_of (passes sub) = 0

old_rejected : status_of (authenticate jwt_parse "s3" "trace" "Bearer sams") ≡ 401
unfolding authenticate split_two is_bearer is_hmac key_of sub_of
old_rejected = refl

verified :
    (keys : String → Option String) (token : String) (claims : Option (List (String × Claim)))
    → jwt_parse keys token ≡ parsed true claims
    → (method key : String) × (keys method ≡ some key) × Signed method key token
verified keys token claims e = elim (Bool-cases (token == "kims")) [
  | inl kims ↦ by_key (keys "HS256") refl ((eq_iff _ _).0 kims) (rw kims at e)
  | inr other ↦ let no = rw other at e in cc
]
  where
    by_key :
        (o : Option String)
        → keys "HS256" ≡ o
        → token ≡ "kims"
        → checked o ≡ parsed true claims
        → (method key : String) × (keys method ≡ some key) × Signed method key token
    by_key none got same e = cc
    by_key (some key) got same e = elim (Bool-cases (key == "s3")) [
      | inl right ↦ ("HS256", key, got, (refl, (eq_iff _ _).0 right, same))
      | inr wrong ↦ let no = rw wrong at e in cc
    ]

abbrev library : JwtLaws jwt_parse Signed
library = record { verified = verified }

authenticate-IsAdmission_example :
    IsAdmission {p = machine} library "s3" "trace" "bearer kims"
      (authenticate jwt_parse "s3" "trace" "bearer kims")
authenticate-IsAdmission_example = authenticate-IsAdmission library "s3" "trace" "bearer kims"

abbrev blank : Encoders machine
blank = record { profile = λ x. "{}"; metrics = λ x. "{}" }

abbrev post : Request machine
post = post_trade (decoded copied_input)

abbrev shaky : World machine
shaky = world_of (losing_trade ∷ []) (refused ∷ [])

user_of : Admission machine → String
user_of (rejects r) = "sam"
user_of (passes sub) = sub

differ : ¬ (("kim" == "sam") ≡ true)
differ h = cc

abbrev plain : Texts machine
plain = record { body = λ b. "{}"; event = λ e. "event" }

abbrev kims_post : Route machine
kims_post = protected "bearer kims" post

kim_only :
    (header sub : String)
    → ◌≡◌ {A = Admission machine} (authenticate jwt_parse "s3" "trace" header) (passes sub)
    → machine.uuid sub ≡ some "sam"
    → header_of kims_post ≢ some header
unfolding user_of
kim_only header sub e here same =
    let kims : "bearer kims" ≡ header = some-injective _ _ same in
    let admitted : ◌≡◌ {A = Admission machine} (passes "kim") (passes sub) =
      sym kim_passes ∙ ap (authenticate jwt_parse "s3" "trace") kims ∙ e in
    let kim : "kim" ≡ sub = ap user_of admitted in
    let named : machine.uuid "kim" ≡ some "sam" =
      subst (λ s. machine.uuid s ≡ some "sam") (sym kim) here in
    differ ((eq_iff "kim" "sam").1 (some-injective _ _ named))

-- The header is accepted for Kim alone, so Sam's trades are as they were.
serve_http_isolated_example :
    trades_of_user "sam"
      (serve_http jwt_parse blank plain "s3" "trace" "POST" "/trades" kims_post shaky).3.db
    ≡ losing_trade ∷ []
serve_http_isolated_example =
    serve_http_isolated jwt_parse blank plain "s3" "trace" "POST" "/trades" "sam" kims_post shaky
      kim_only

abbrev weekly : MetricsQuery
weekly = record {
  from_str = "2025-01-06T09:30:00Z";
  to_str = "2025-01-06T09:30:00Z";
  granularity = "weekly";
}

weekly_unread :
    read_query machine weekly ≡ err (bad_request "granularity must be hourly, daily, or rolling30d")
unfolding read_query interval_of
weekly_unread = refl

get-IsBadRequest_example :
    ((MetricsHandler.get blank.metrics "sam" "trace" "sam" weekly shaky).2.db ≡ shaky.db)
    × ((◌≡◌ {A = String} "sam" "sam")
        ⊎ (MetricsHandler.get blank.metrics "sam" "trace" "sam" weekly shaky
            ≡ (respond_forbidden "trace", [], shaky)))
    × ((◌≢◌ {A = String} "sam" "sam")
        ⊎ (((from : Time) × (to : Time) × (interval : String) × IsRange machine weekly from to
                interval)
            ⊎ (IsUnreadable machine weekly
                × IsBadRequest blank.metrics "trace" "sam" weekly shaky
                    (MetricsHandler.get blank.metrics "sam" "trace" "sam" weekly shaky))))
get-IsBadRequest_example = get-IsBadRequest blank.metrics "trace" "sam" weekly "sam" shaky

abbrev daily : MetricsQuery
daily = record weekly { granularity = "daily" }

abbrev instant : Time
instant = 63871752600000000000

daily_read : read_query machine daily ≡ ok (instant, instant, "1 day")
unfolding read_query interval_of
daily_read = refl

abbrev calm : World machine
calm = world_of (losing_trade ∷ []) []

-- A minute later the trade is gone, a loss has been stored, and the cached answer is still there.
abbrev a_minute_later : World machine
a_minute_later = record (world_of [] []) {
  redis =
      (run_task (store_last_loss "sam" (pos 1736155860))
        (run_task (cache_answer (metrics_key "sam" daily) "{}") calm)).redis;
  now = calm.now + 60 * second;
}

get_repeats_example :
    MetricsHandler.get blank.metrics "sam" "trace" "sam" daily a_minute_later
    ≡ (respond_json 200 (raw "{}"), [], a_minute_later)
unfolding run_task trade_journal.Cache.Metrics.set_cached trade_journal.Cache.LastLoss.set_last_loss
    trade_journal.Store.World.call
get_repeats_example =
    get_repeats keys blank.metrics "trace" "sam" "{}" daily instant instant "1 day" calm
      a_minute_later (60 * second) daily_read refl refl refl refl
