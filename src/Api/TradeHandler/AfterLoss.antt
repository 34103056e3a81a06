-- ===== src/Api/TradeHandler/AfterLoss.antt =====
-- From a losing trade to the revenge trade that follows it: the goroutine of the first request
-- stores the loss, and the check of the second reads it.
use trade_journal.Prelude.{
  ◌+◌, ◌*◌, ◌≤◌, ◌<◌, String, ◌≡◌, refl, sym, ap, subst, ◌∙◌, ◌↔◌, ◌⊎◌, inl, inr, ℕ, Bool, true,
  false, none, some, Option, List, [], ◌∷◌, ◌++◌, All, eq_refl, arith, ltb, if◌then◌else◌,
}
use trade_journal.Prelude.Int.{ℤ, pos, ltb_ℤ}
use trade_journal.Prelude.Time.{Time, second, unix, unix_epoch, from_unix, truncate}
use trade_journal.Platform.{Platform, Payload, digits}
use trade_journal.Platform.Laws.{KeyLaws, tally}
use trade_journal.Domain.Revenge.{is_revenge, is_revenge_iff}
use trade_journal.Domain.Trade.{Trade, TradeInput}
use trade_journal.Cache.LastLoss.{last_loss_key}
use trade_journal.Store.Columns.{trade_row}
use trade_journal.Store.Columns.Laws.{trade_row-Keeps}
use trade_journal.Store.Trades.{trade_of, has_user, has_session}
use trade_journal.Store.World.{World}
use trade_journal.Api.Response.{trade, respond_json}
use trade_journal.Api.TradeHandler.{Task, decoded, create, side_effects, store_last_loss}
use trade_journal.Api.TradeHandler.Submission.{prepared}
use trade_journal.Api.TradeHandler.Tenancy.{IsAdmissible}
use trade_journal.Api.TradeHandler.Recording.{IsFlagged, prepared-IsFlagged, create_records}
use trade_journal.Api.TradeHandler.Goroutines.{
  stores, IsLoss, side_effects_of_loss, side_effects-loss, Runs-store,
}
use trade_journal.Api.TradeHandler.Tasks.{Runs}

-- `time.Unix` of `Unix()` loses what exceeds a second.
from_unix-unix :
    (t : Time)
    → (unix_epoch + 1) * second ≤ t
    → (ltb_ℤ (pos 0) (unix t) ≡ true) × (from_unix (unix t) ≡ truncate t second)
from_unix-unix t late = ground arith

-- An entry is soon after an exit in a state of fear: the exit counts to the second.
abbrev pub FollowsLoss : Time → Time → Option String → Type 0
FollowsLoss exit entry state =
    (truncate exit second ≤ entry)
    × (entry < truncate exit second + 90 * second)
    × ((state ≡ some "anxious") ⊎ (state ≡ some "fearful"))

module _ {p : Platform} where
  -- Goroutines of a loss and others that store none.
  store_alone :
      (user : String) (exit : Time) (loss : Trade p) (ts : List Task)
      → All (λ t. stores user t ≡ false) ts
      → let all = side_effects_of_loss user exit loss ++ ts in
        All (λ t. (stores user t ≡ false) ⊎ (t ≡ store_last_loss user (unix exit))) all
        × (tally (stores user) all ≡ 1)
  store_alone user exit loss ts spare = (
    (inr refl, (inl refl, (inl refl, each ts spare))),
    rw (eq_refl (last_loss_key user)) (omega (arith, none_in ts spare)),
  )
    where
      each :
          (us : List Task)
          → All (λ t. stores user t ≡ false) us
          → All (λ t. (stores user t ≡ false) ⊎ (t ≡ store_last_loss user (unix exit))) us
      each [] h = tt
      each (u ∷ us) (h, hs) = (inl h, each us hs)

      none_in : (us : List Task) → All (λ t. stores user t ≡ false) us → tally (stores user) us ≡ 0
      none_in [] h = refl
      none_in (u ∷ us) (h, hs) = rw h (omega (arith, none_in us hs))

  -- What the check reads decides as the exit does.
  IsFlagged-FollowsLoss :
      (user : String) (exit entry : Time) (state : Option String) (recent : Bool) (v : World p)
      → (unix_epoch + 1) * second ≤ exit
      → p.redis_get v.redis v.now (last_loss_key user)
        ≡ (if recent then some (digits (unix exit)) else none)
      → IsFlagged state user entry v ↔ ((recent ≡ true) × FollowsLoss exit entry state)
  IsFlagged-FollowsLoss user exit entry state false v late read = (
    λ (e, n, given, found, after, revenge). let no = sym read ∙ found in cc,
    λ (never, follows). cc,
  )
  IsFlagged-FollowsLoss user exit entry state true v late read =
      let (after_epoch, to_second) = from_unix-unix exit late in
      (
        λ (e, n, given, found, after, revenge).
            let same : unix exit ≡ n = number-injective (sym read ∙ found) in
            let soon =
              ap (λ k. is_revenge k entry e) (sym to_second ∙ ap from_unix same) ∙ revenge in
            let (not_before, within, fear) =
              (is_revenge_iff (truncate exit second) entry e).0 soon in
            (refl, (not_before, within, in_state e given fear)),
        λ (_, (not_before, within, fear)).
            let (e, given, afraid) = state_of fear in
            let revenge =
              ap (λ k. is_revenge k entry e) to_second
              ∙ (is_revenge_iff (truncate exit second) entry e).1 (not_before, within, afraid) in
            (e, unix exit, given, read, after_epoch, revenge),
      )
    where
      number-injective :
          {m n : ℤ} → ◌≡◌ {A = Option Payload} (some (digits m)) (some (digits n)) → m ≡ n
      number-injective e = cc

      in_state :
          (e : String)
          → state ≡ some e
          → (e ≡ "anxious") ⊎ (e ≡ "fearful")
          → (state ≡ some "anxious") ⊎ (state ≡ some "fearful")
      in_state e given (inl k) = inl (given ∙ ap some k)
      in_state e given (inr k) = inr (given ∙ ap some k)

      state_of :
          (state ≡ some "anxious") ⊎ (state ≡ some "fearful")
          → (e : String) × (state ≡ some e) × ((e ≡ "anxious") ⊎ (e ≡ "fearful"))
      state_of (inl k) = ("anxious", k, inl refl)
      state_of (inr k) = ("fearful", k, inr refl)

  -- A user closes a trade with a loss, in or after the second behind the epoch; the goroutines of
  -- the trade run, in any order and with any others that store no loss of the user; and a new trade
  -- of the user is submitted `d` nanoseconds after they started, every call being answered. The row
  -- that is recorded and answered is flagged as a revenge trade exactly if `d` is less than ninety
  -- seconds, the trade is entered at or after the second of the exit and less than ninety seconds
  -- later, and the state that is given is anxious or fearful.
  pub create_after_loss :
      (laws : KeyLaws p) (sub trace : String) (exit : Time) (loss new : Trade p)
      (input : TradeInput p) (ts : List Task) (w u v : World p) (d : ℕ)
      → IsLoss sub exit loss
      → (unix_epoch + 1) * second ≤ exit
      → All (λ t. stores sub t ≡ false) ts
      → w.schedule ≡ []
      → Runs (side_effects loss ++ ts) w u
      → v.redis ≡ u.redis
      → v.schedule ≡ []
      → v.now ≡ w.now + d
      → IsAdmissible sub (decoded input)
      → trade_row v.now (prepared input v).0 ≡ some new
      → trade_of new.trade_id v.db.trades ≡ none
      → has_user v.db new.user_id ≡ true
      → has_session v.db new.session_id ≡ true
      → ((create sub trace (decoded input) v).0 ≡ respond_json 200 (trade new))
        × ((new.revenge_flag ≡ true)
            ↔ ((d < 90 * second) × FollowsLoss exit input.entry_at input.emotional_state))
  create_after_loss laws sub trace exit loss new input ts w u v d lost late spare quiet runs same
        still later good made free user session =
      let started = ap (λ tasks. tasks ++ ts) (side_effects-loss sub exit loss lost) in
      let (others, one) = store_alone sub exit loss ts spare in
      let read =
        ap (λ (r : p.Redis). p.redis_get r v.now (last_loss_key sub)) same
        ∙ Runs-store laws sub (unix exit) v.now (subst (λ tasks. Runs tasks w u) started runs) quiet
            others one in
      let flagged = (trade_row-Keeps v.now (prepared input v).0 new made).revenge_flag in
      let checked = prepared-IsFlagged input v still in
      let follows =
        IsFlagged-FollowsLoss sub exit input.entry_at input.emotional_state
          (ltb v.now (w.now + 90 * second)) v late read in
      (
        ap (λ a. a.0) (create_records sub trace input new v good still made free user session),
        (
          λ h.
              let (recent, f) = follows.0 (
                subst (λ u. IsFlagged input.emotional_state u input.entry_at v) good.1
                  (checked.0 (sym flagged ∙ h))) in
              (ground (arith, later, recent), f),
          λ (recent, f).
              flagged
              ∙ checked.1 (
                  subst (λ u. IsFlagged input.emotional_state u input.entry_at v) (sym good.1)
                    (follows.1 (ground (arith, later, recent), f))),
        ),
      )
