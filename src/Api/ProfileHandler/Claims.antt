-- ===== src/Api/ProfileHandler/Claims.antt =====
-- What a profile claims of a user, and who is shown it.
use trade_journal.Prelude.{
  ◌⊎◌, ℕ, ◌≤◌, String, ◌≡◌, refl, ◌∙◌, inl, inr, true, Option, none, some, List, [], ◌∷◌, length,
  contains, eq_iff, ◌==◌, Bool-cases, Result, ok, err,
}
use trade_journal.Platform.{Platform, Payload}
use trade_journal.Cache.Metrics.{get_cached, set_cached}
use trade_journal.Store.Tables.{User}
use trade_journal.Store.World.{World}
use trade_journal.Store.World.Frames.{query_frame, command_frame, lookup_frame}
use trade_journal.Store.Users.{select_user, get_user}
use trade_journal.Store.Evidence.{select_evidence, get_evidence_for_pathology}
use trade_journal.Api.Response.{respond_forbidden}
use trade_journal.Api.ProfileHandler.{
  Pathology, ProfileResponse, claims, build_profile, answer_user, answer_cached, get, profile_key,
  all_pathology_types,
}

module _ {p : Platform} where
  get_evidence_frame :
      (user pathology : String) (w : World p)
      → (get_evidence_for_pathology user pathology w).1.db ≡ w.db
  unfolding get_evidence_for_pathology
  get_evidence_frame user pathology w = query_frame (select_evidence user pathology) w

  -- The evidence that a listed pathology has.
  pub record IsFounded (types : List String) (c : Pathology p) : Type 0 where
    pub at_least : 2 ≤ length c.evidence_trades
    pub at_most : length c.evidence_trades ≤ 10
    pub named : contains c.pathology types ≡ true

module _ {p : Platform} where
  claims_frame :
      (user : String) (total : ℕ) (types : List String) (w : World p)
      → (claims user total types w).1.db ≡ w.db
  unfolding claims
  claims_frame user total [] w = refl
  claims_frame user total (t ∷ types) w =
      claims_frame user total types _ ∙ get_evidence_frame user t w

  build_profile_frame :
      (encode : ProfileResponse p → String) (user : String) (w : World p)
      → (build_profile encode user w).1.db ≡ w.db
  unfolding build_profile set_cached
  build_profile_frame encode user w =
      command_frame _ _ ∙ claims_frame user _ all_pathology_types _ ∙ get_evidence_frame user "" w

  answer_user_frame :
      (encode : ProfileResponse p → String) (trace user : String) (x : Result User × World p)
      → (answer_user encode trace user x).1.db ≡ x.1.db
  answer_user_frame encode trace user (err e, v) = refl
  answer_user_frame encode trace user (ok u, v) = build_profile_frame encode user v

  get_user_frame : (user : String) (w : World p) → (get_user user w).1.db ≡ w.db
  unfolding get_user
  get_user_frame user w = lookup_frame (select_user user) w

  answer_cached_frame :
      (encode : ProfileResponse p → String) (trace user : String)
      (x : Result (Option Payload) × World p)
      → (answer_cached encode trace user x).1.db ≡ x.1.db
  answer_cached_frame encode trace user (ok (some t), v) = refl
  answer_cached_frame encode trace user (ok none, v) =
      answer_user_frame encode trace user (get_user user v) ∙ get_user_frame user v
  answer_cached_frame encode trace user (err e, v) =
      answer_user_frame encode trace user (get_user user v) ∙ get_user_frame user v

  -- A profile request changes no table, whatever calls fail; for a user other than the token's it
  -- makes no call at all and is answered with 403.
  pub get_reads :
      (encode : ProfileResponse p → String) (sub trace user : String) (w : World p)
      → ((get encode sub trace user w).1.db ≡ w.db)
        × ((user ≡ sub) ⊎ (get encode sub trace user w ≡ (respond_forbidden trace, w)))
  unfolding get get_cached
  get_reads encode sub trace user w = elim (Bool-cases (user == sub)) [
    | inl same ↦ rw same (
      answer_cached_frame encode trace user (get_cached (profile_key user) w) ∙ command_frame _ w,
      inl ((eq_iff _ _).0 same),
    )
    | inr other ↦ rw other (refl, inr refl)
  ]
