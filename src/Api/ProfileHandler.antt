-- ===== src/Api/ProfileHandler.antt =====
-- internal/api/handler/profile.go: GET /users/{userId}/profile.
pub mod Claims
pub mod Strengths
use trade_journal.Prelude.{
  ℕ, String, Bool, true, false, not, ◌&&◌, Option, none, some, List, [], ◌∷◌, ◌++◌, length,
  contains, eqb, leb, if◌then◌else◌, ◌==◌, Error, Result, ok, err,
}
use trade_journal.Prelude.Int.{ℤ, pos}
use trade_journal.Prelude.Time.{Time}
use trade_journal.Platform.{Platform, Payload, digits, bytes}
use trade_journal.Cache.LastLoss.{join}
use trade_journal.Cache.Metrics.{payload_text, get_cached, set_cached}
use trade_journal.Store.Tables.{User}
use trade_journal.Store.World.{World}
use trade_journal.Store.Users.{get_user}
use trade_journal.Store.Evidence.{EvidenceResult, get_evidence_for_pathology}
use trade_journal.Api.Response.{Response, raw, respond_json, respond_forbidden, respond_not_found}

pub record Pathology (p : Platform) : Type 0 where
  pub pathology : String
  pub confidence : p.Float
  pub evidence_sessions : List String
  pub evidence_trades : List String

-- `ProfileResponse`; the peak performance window is the same constant for everyone.
pub record ProfileResponse (p : Platform) : Type 0 where
  pub user_id : String
  pub generated_at : Time
  pub dominant_pathologies : List (Pathology p)
  pub strengths : List String

abbrev pub all_pathology_types : List String
all_pathology_types =
    "revenge_trading" ∷ "overtrading" ∷ "fomo_entries" ∷ "plan_non_adherence" ∷ "premature_exit"
    ∷ "loss_running" ∷ "session_tilt" ∷ "time_of_day_bias" ∷ "position_sizing_inconsistency" ∷ []

abbrev profile_key : String → String
profile_key user_id = join "profile:" user_id

-- `len(allEvidence.TradeIDs)`, and 1 where that is 0; a query that fails has returned no row.
unfoldable pub total_trades : Result EvidenceResult → ℕ
total_trades (err e) = 1
total_trades (ok all) = if eqb (length all.trade_ids) 0 then 1 else length all.trade_ids

abbrev strength_if : Bool → String → List String
strength_if b s = if b then s ∷ [] else []

-- The strengths, by the names of the pathologies that are listed.
unfoldable pub strengths_of : List String → List String
strengths_of names =
    let has : String → Bool = λ s. contains s names in
    strength_if (not (has "plan_non_adherence")) "Disciplined plan execution"
    ++ (strength_if (not (has "revenge_trading") && not (has "session_tilt"))
          "Strong emotional control"
        ++ (strength_if (not (has "overtrading")) "Consistent risk management"
            ++ (strength_if (not (has "position_sizing_inconsistency")) "Consistent position sizing"
                ++ (if eqb (length names) 0
                    then []
                    else "Self-aware of behavioral patterns"
                      ∷ "Committed to tracking and improvement" ∷ []))))

-- A float64 that is greater than 1 is set to 1.
abbrev cap : (p : Platform) → p.Float → p.Float
cap p x = if p.float_gt x (p.to_float (pos 1)) then p.to_float (pos 1) else x

module _ {p : Platform} where
  -- What the loop appends for one pathology: nothing on an error or for fewer than two trades.
  unfoldable pub claim : String → ℕ → Result EvidenceResult → List (Pathology p)
  claim pathology total (err e) = []
  claim pathology total (ok evidence) =
      if eqb (length evidence.trade_ids) 0
      then []
      else if leb 2 (length evidence.trade_ids)
      then record {
        pathology = pathology;
        confidence =
            cap p
              (p.float_div (p.to_float (pos (length evidence.trade_ids))) (p.to_float (pos total)));
        evidence_sessions = evidence.session_ids;
        evidence_trades = evidence.trade_ids;
      }
        ∷ []
      else []

  -- The loop over the pathologies.
  unfoldable pub claims : String → ℕ → List String → World p → List (Pathology p) × World p
  claims user_id total [] w = ([], w)
  claims user_id total (t ∷ types) w =
      let (evidence, w₁) = get_evidence_for_pathology user_id t w in
      let (later, w₂) = claims user_id total types w₁ in (claim t total evidence ++ later, w₂)

  unfoldable pub names_of : List (Pathology p) → List String
  names_of [] = []
  names_of (c ∷ cs) = c.pathology ∷ names_of cs

  -- What is built for a user that is there: the profile, the calls and the entry in the cache.
  -- `encode` is json.Marshal.
  unfoldable pub build_profile :
      (ProfileResponse p → String) → String → World p → Response p × World p
  build_profile encode user_id w =
      let (all, w₁) = get_evidence_for_pathology user_id "" w in
      let (pathologies, w₂) = claims user_id (total_trades all) all_pathology_types w₁ in
      let text = encode (record {
        user_id = user_id;
        generated_at = w₂.now;
        dominant_pathologies = pathologies;
        strengths = strengths_of (names_of pathologies);
      }) in
      (respond_json 200 (raw text), (set_cached (profile_key user_id) text w₂).1)

  abbrev answer_user :
      (ProfileResponse p → String) → String → String → Result User × World p → Response p × World p
  answer_user encode trace_id user_id (err e, w) = (respond_not_found trace_id "User not found.", w)
  answer_user encode trace_id user_id (ok _, w) = build_profile encode user_id w

  -- A cached profile is written as it is; an error of the cache counts as a miss.
  abbrev answer_cached :
      (ProfileResponse p → String)
      → String
      → String
      → Result (Option Payload) × World p
      → Response p × World p
  answer_cached encode trace_id user_id (ok (some text), w) =
      (respond_json 200 (raw (payload_text p text)), w)
  answer_cached encode trace_id user_id (ok none, w) =
      answer_user encode trace_id user_id (get_user user_id w)
  answer_cached encode trace_id user_id (err e, w) =
      answer_user encode trace_id user_id (get_user user_id w)

  -- GET /users/{userId}/profile
  unfoldable pub get :
      (ProfileResponse p → String) → String → String → String → World p → Response p × World p
  get encode sub trace_id user_id w =
      if not (user_id == sub)
      then (respond_forbidden trace_id, w)
      else answer_cached encode trace_id user_id (get_cached (profile_key user_id) w)
