-- ===== src/Api/TradeHandler/Goroutines.antt =====
-- Which goroutine of a trade writes what: the last loss, the stream, the window.
pub mod Found
use Prim.Native.String.{slice}
use mathlib.Core.List.{map-append}
use text.Mathlib.TextLemmas.{append_cancel_left}
use text.Mathlib.TextPositions.{slice-append_left}
use trade_journal.Prelude.{
  ◌+◌, ◌*◌, ◌++◌, map, String, Bool, true, false, ◌≡◌, refl, ap, ◌∙◌, ◌⊎◌, inl, inr, Option, some,
  none, List, [], ◌∷◌, All, ltb, ◌==◌, eq_refl, if◌then◌else◌, arith, sym, subst, Bool-cases, ◌&&◌,
  holds_text, eq_iff,
}
use trade_journal.Prelude.Int.{ℤ}
use trade_journal.Prelude.Time.{Time, second, minute, unix, unix_milli}
use trade_journal.Platform.{Platform, Message, digits, bytes}
use trade_journal.Platform.Laws.{KeyLaws, ZSetLaws, GroupLaws, tally, has_member}
use trade_journal.Domain.Enums.{status_closed, outcome_loss}
use trade_journal.Domain.Trade.{Trade}
use trade_journal.Store.World.{World}
use trade_journal.Cache.LastLoss.{join, last_loss_key}
use trade_journal.Cache.Stream.{arg_texts}
use trade_journal.Cache.Window.{trades_key}
use trade_journal.Pipeline.Worker.{stream_name, group_name}
use trade_journal.Api.TradeHandler.{
  Task, store_last_loss, publish, add_to_window, cache_answer, event_data, side_effects, loss_task,
}
use trade_journal.Api.TradeHandler.Tasks.{Runs, effect, Runs-change}

-- The goroutines that write the last loss of a user, the stream, and the sorted set of a key; a
-- string that is stored under the key of another value overwrites it.
abbrev pub stores : String → Task → Bool
stores user (store_last_loss other exit_at) = last_loss_key other == last_loss_key user
stores user (cache_answer key text) = key == last_loss_key user
stores user _ = false

abbrev pub publishes : Task → Bool
publishes (publish values) = true
publishes (store_last_loss user exit_at) = last_loss_key user == stream_name
publishes (cache_answer key text) = key == stream_name
publishes (add_to_window key score member) = false

abbrev pub scores : String → Task → Bool
scores key (add_to_window other score member) = true
scores key (store_last_loss user exit_at) = last_loss_key user == key
scores key (cache_answer other text) = other == key
scores key (publish values) = false

-- The keys of the program are apart.
pub last_loss-stream : (user : String) → (last_loss_key user == stream_name) ≡ false
last_loss-stream user = elim (Bool-cases (last_loss_key user == stream_name)) [
  | inl same ↦
      let prefixes : "user:" ≡ slice "trades:events" 0 5 =
        sym (slice-append_left "user:" (join user ":last_loss"))
        ∙ ap (λ s. slice s 0 5) ((eq_iff _ _).0 same) in
      let alike = (eq_iff "user:" "trade").1 prefixes in cc
  | inr other ↦ other
]

pub last_loss-trades : (user : String) → (last_loss_key user == trades_key user) ≡ false
last_loss-trades user = elim (Bool-cases (last_loss_key user == trades_key user)) [
  | inl same ↦
      let suffixes =
        append_cancel_left user ":last_loss" ":trades-ts"
          (append_cancel_left "user:" _ _ ((eq_iff _ _).0 same)) in
      let alike = (eq_iff ":last_loss" ":trades-ts").1 suffixes in cc
  | inr other ↦ other
]

-- A closed trade with a loss, and its exit.
pub record IsLoss {p : Platform} (user : String) (exit : Time) (t : Trade p) : Type 0 where
  pub user_id : t.user_id ≡ user
  pub status : t.status ≡ "closed"
  pub outcome : t.outcome ≡ some "loss"
  pub exit_at : t.exit_at ≡ some exit

module _ {p : Platform} where
  abbrev pub side_effects_of_loss : String → Time → Trade p → List Task
  side_effects_of_loss user exit t =
      store_last_loss user (unix exit)
      ∷ publish (event_data t)
      ∷ add_to_window (trades_key user) (unix_milli t.entry_at) t.trade_id
      ∷ []

  pub side_effects-loss :
      (user : String) (exit : Time) (t : Trade p)
      → IsLoss user exit t
      → side_effects t ≡ side_effects_of_loss user exit t
  unfolding side_effects
  side_effects-loss user exit t h = rw (h.exit_at, h.status, h.outcome, h.user_id) refl

  stored_keeps :
      (laws : KeyLaws p) (user : String) (u : Time) (t : Task) (w : World p)
      → stores user t ≡ false
      → p.redis_get (effect p t w.now w.redis) u (last_loss_key user)
        ≡ p.redis_get w.redis u (last_loss_key user)
  stored_keeps laws user u (store_last_loss other exit_at) w other_key =
      laws.get-set w.redis w.now u (last_loss_key other) (last_loss_key user) (digits exit_at)
        (90 * second)
      ∙ rw other_key refl
  stored_keeps laws user u (publish values) w _ =
      laws.get-xadd w.redis u "trades:events" (last_loss_key user) (arg_texts p values)
  stored_keeps laws user u (add_to_window key score member) w _ =
      laws.get-zadd w.redis u key (last_loss_key user) member score
  stored_keeps laws user u (cache_answer key text) w other_key =
      laws.get-set w.redis w.now u key (last_loss_key user) (bytes text) (5 * minute)
      ∙ rw other_key refl

  -- One goroutine stores a loss of the user, and no other writes it.
  pub Runs-store :
      (laws : KeyLaws p) (user : String) (exit_at : ℤ) (u : Time) {ts : List Task} {w v : World p}
      → Runs ts w v
      → w.schedule ≡ []
      → All (λ t. (stores user t ≡ false) ⊎ (t ≡ store_last_loss user exit_at)) ts
      → tally (stores user) ts ≡ 1
      → p.redis_get v.redis u (last_loss_key user)
        ≡ (if ltb u (w.now + 90 * second) then some (digits exit_at) else none)
  Runs-store laws user exit_at u {w = w} runs quiet others one =
      Runs-change (λ (v : World p). p.redis_get v.redis u (last_loss_key user)) (stores user)
        (stored_keeps laws user u) (store_last_loss user exit_at) w.now
        (p.redis_get w.redis u (last_loss_key user))
        (if ltb u (w.now + 90 * second) then some (digits exit_at) else none)
        (λ v at _.
          laws.get-set v.redis v.now u (last_loss_key user) (last_loss_key user) (digits exit_at)
            (90 * second)
          ∙ rw (eq_refl (last_loss_key user))
              (ap (λ n. if ltb u (n + 90 * second) then some (digits exit_at) else none) at))
        runs quiet refl others one refl

  -- The goroutines of any trade: these, and one that stores its loss.
  abbrev pub always : Trade p → List Task
  always t =
      publish (event_data t)
      ∷ add_to_window (trades_key t.user_id) (unix_milli t.entry_at) t.trade_id
      ∷ []

  side_effects-cases :
      (t : Trade p)
      → (side_effects t ≡ always t)
        ⊎ ((exit_at : ℤ) × (side_effects t ≡ store_last_loss t.user_id exit_at ∷ always t))
  unfolding side_effects
  side_effects-cases t = by_exit t.exit_at
    where
      by_exit :
          (o : Option Time)
          → (loss_task t o ++ always t ≡ always t)
            ⊎ ((exit_at : ℤ) × (loss_task t o ++ always t
                  ≡ store_last_loss t.user_id exit_at ∷ always t))
      by_exit none = inl refl
      by_exit (some e) =
          elim (Bool-cases (t.status == status_closed && holds_text t.outcome outcome_loss)) [
            | inl lost ↦ inr (unix e, rw lost refl)
            | inr other ↦ inl (rw other refl)
          ]

  -- What holds of both lists of goroutines.
  pub each_list :
      (P : List Task → Type 0) (t : Trade p)
      → P (always t)
      → ((exit_at : ℤ) → P (store_last_loss t.user_id exit_at ∷ always t))
      → P (side_effects t)
  each_list P t without with_loss = elim (side_effects-cases t) [
    | inl e ↦ subst P (sym e) without
    | inr (exit_at, e) ↦ subst P (sym e) (with_loss exit_at)
  ]

  -- The fields of the events that the worker's group has yet to be given.
  abbrev pub unread_values : GroupLaws p → World p → List (List (String × String))
  unread_values groups w = map (λ m. m.values) (groups.unread w.redis stream_name group_name)

  pub published_keeps :
      (groups : GroupLaws p) (t : Task) (w : World p)
      → publishes t ≡ false
      → unread_values groups (record w { redis = effect p t w.now w.redis })
        ≡ unread_values groups w
  published_keeps groups (store_last_loss user exit_at) w other = ap (map (λ m. m.values)) (
      groups.unread-set w.redis stream_name group_name w.now (last_loss_key user) (digits exit_at)
        (90 * second) other)
  published_keeps groups (publish values) w e = cc
  published_keeps groups (add_to_window key score member) w _ =
      ap (map (λ m. m.values)) (groups.unread-zadd w.redis stream_name group_name key member score)
  published_keeps groups (cache_answer key text) w other =
      ap (map (λ m. m.values))
        (groups.unread-set w.redis stream_name group_name w.now key (bytes text) (5 * minute) other)

  pub window_keeps :
      (zsets : ZSetLaws p) (key name : String) (t : Task) (w : World p)
      → scores key t ≡ false
      → has_member name (zsets.members (effect p t w.now w.redis) key)
        ≡ has_member name (zsets.members w.redis key)
  window_keeps zsets key name (store_last_loss user exit_at) w apart = ap (has_member name) (
      zsets.members-set w.redis w.now (last_loss_key user) key (digits exit_at) (90 * second) apart)
  window_keeps zsets key name (publish values) w _ =
      ap (has_member name) (zsets.members-xadd w.redis "trades:events" key (arg_texts p values))
  window_keeps zsets key name (add_to_window other score member) w e = cc
  window_keeps zsets key name (cache_answer other text) w apart =
      ap (has_member name)
        (zsets.members-set w.redis w.now other key (bytes text) (5 * minute) apart)
