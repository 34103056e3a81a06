-- ===== src/Api/TradeHandler/Goroutines/Found.antt =====
-- What is found in Redis after the goroutines of a trade have run, in whatever order.
use mathlib.Core.List.{map-append}
use trade_journal.Prelude.{
  ◌+◌, ◌*◌, ◌++◌, map, String, true, false, ◌≡◌, refl, ap, ◌∙◌, ◌⊎◌, inl, inr, some, none, List, [],
  ◌∷◌, All, ltb, eq_refl, if◌then◌else◌, subst,
}
use trade_journal.Prelude.Time.{Time, second, unix, unix_milli}
use trade_journal.Platform.{Platform, Message, digits}
use trade_journal.Platform.Laws.{KeyLaws, ZSetLaws, GroupLaws, tally, has_member}
use trade_journal.Domain.Trade.{Trade}
use trade_journal.Store.World.{World}
use trade_journal.Cache.LastLoss.{last_loss_key}
use trade_journal.Cache.Stream.{arg_texts}
use trade_journal.Cache.Window.{trades_key}
use trade_journal.Pipeline.Worker.{stream_name, group_name}
use trade_journal.Api.TradeHandler.{Task, publish, add_to_window, event_data, side_effects}
use trade_journal.Api.TradeHandler.Goroutines.{
  publishes, scores, last_loss-stream, last_loss-trades, IsLoss, side_effects-loss, Runs-store,
  each_list, unread_values, published_keeps, window_keeps,
}
use trade_journal.Api.TradeHandler.Tasks.{Runs, effect, Runs-change}

module _ {p : Platform} where
  abbrev fields_of : Trade p → List (String × String)
  fields_of t = arg_texts p (event_data t)

  module _ (zsets : ZSetLaws p) (groups : GroupLaws p) (t : Trade p) {w v : World p}
      (quiet : w.schedule ≡ []) where
    Runs-publish :
        Runs (side_effects t) w v
        → unread_values groups v ≡ unread_values groups w ++ fields_of t ∷ []
    Runs-publish =
        each_list
          (λ ts. Runs ts w v → unread_values groups v ≡ unread_values groups w ++ fields_of t ∷ [])
          t (λ runs. change runs (inr refl, (inl refl, tt)) refl)
          (λ exit_at runs.
            let apart = last_loss-stream t.user_id in
            change runs (inl apart, (inr refl, (inl refl, tt))) (rw apart refl))
      where
        appended :
            (u : World p)
            → unread_values groups u ≡ unread_values groups w
            → unread_values groups
                (record u { redis = effect p (publish (event_data t)) u.now u.redis })
              ≡ unread_values groups w ++ fields_of t ∷ []
        appended u before =
            ap (map (λ m. m.values))
              (groups.add_unread u.redis stream_name group_name (fields_of t))
            ∙ map-append (λ (m : Message). m.values) (groups.unread u.redis stream_name group_name)
                (groups.added u.redis stream_name (fields_of t) ∷ [])
            ∙ ap (λ fs. unread_values groups u ++ fs ∷ [])
                (groups.added_values u.redis stream_name (fields_of t))
            ∙ ap (λ us. us ++ fields_of t ∷ []) before

        change :
            {ts : List Task}
            → Runs ts w v
            → All (λ s. (publishes s ≡ false) ⊎ (s ≡ publish (event_data t))) ts
            → tally publishes ts ≡ 1
            → unread_values groups v ≡ unread_values groups w ++ fields_of t ∷ []
        change runs others one =
            Runs-change (unread_values groups) publishes (published_keeps groups)
              (publish (event_data t)) w.now (unread_values groups w)
              (unread_values groups w ++ fields_of t ∷ []) (λ u at before. appended u before) runs
              quiet refl others one refl

    Runs-add :
        Runs (side_effects t) w v
        → has_member t.trade_id (zsets.members v.redis (trades_key t.user_id)) ≡ true
    Runs-add =
        each_list
          (λ ts.
            Runs ts w v
            → has_member t.trade_id (zsets.members v.redis (trades_key t.user_id)) ≡ true)
          t (λ runs. change runs (inl refl, (inr refl, tt)) refl)
          (λ exit_at runs.
            let apart = last_loss-trades t.user_id in
            change runs (inl apart, (inl refl, (inr refl, tt))) (rw apart refl))
      where
        change :
            {ts : List Task}
            → Runs ts w v
            → All
                (λ s.
                  (scores (trades_key t.user_id) s ≡ false)
                  ⊎ (s ≡ add_to_window (trades_key t.user_id) (unix_milli t.entry_at) t.trade_id))
                ts
            → tally (scores (trades_key t.user_id)) ts ≡ 1
            → has_member t.trade_id (zsets.members v.redis (trades_key t.user_id)) ≡ true
        change runs others one =
            Runs-change
              (λ (u : World p).
                has_member t.trade_id (zsets.members u.redis (trades_key t.user_id)))
              (scores (trades_key t.user_id)) (window_keeps zsets (trades_key t.user_id) t.trade_id)
              (add_to_window (trades_key t.user_id) (unix_milli t.entry_at) t.trade_id) w.now
              (has_member t.trade_id (zsets.members w.redis (trades_key t.user_id))) true
              (λ u at before.
                zsets.zadd_has u.redis (trades_key t.user_id) (unix_milli t.entry_at) t.trade_id)
              runs quiet refl others one refl

  -- In whatever order the goroutines of a trade run, when their calls are answered, the worker's
  -- group has been left one event more to be given, the trade's; the trade is in the window of its
  -- user; and if it is a closed trade with a loss, the second of its exit is the last loss of the
  -- user for the next ninety seconds, and none is stored from then on.
  pub Runs-side_effects :
      (keys : KeyLaws p) (zsets : ZSetLaws p) (groups : GroupLaws p) (t : Trade p) {w v : World p}
      → w.schedule ≡ []
      → Runs (side_effects t) w v
      → (unread_values groups v ≡ unread_values groups w ++ arg_texts p (event_data t) ∷ [])
        × (has_member t.trade_id (zsets.members v.redis (trades_key t.user_id)) ≡ true)
        × ((user : String) (exit u : Time)
            → IsLoss user exit t
            → p.redis_get v.redis u (last_loss_key user)
              ≡ (if ltb u (w.now + 90 * second) then some (digits (unix exit)) else none))
  Runs-side_effects keys zsets groups t {w} {v} quiet runs = (
    Runs-publish zsets groups t quiet runs,
    Runs-add zsets groups t quiet runs,
    λ user exit u lost.
        Runs-store keys user (unix exit) u
          (subst (λ ts. Runs ts w v) (side_effects-loss user exit t lost) runs) quiet
          (inr refl, (inl refl, (inl refl, tt))) (rw (eq_refl (last_loss_key user)) refl),
  )
