-- ===== src/Api/TradeHandler/Tasks.antt =====
-- What the goroutines of the handlers do to the world when their calls are answered.
use trade_journal.Prelude.{
  ◌+◌, ◌*◌, ◌++◌, Bool, ◌≡◌, refl, ap, subst, ◌∙◌, ◌⊎◌, inl, inr, false, List, [], ◌∷◌, All,
  if◌then◌else◌, Bool-cases, arith,
}
use trade_journal.Prelude.Time.{Time, second, minute}
use trade_journal.Platform.{Platform, digits, bytes}
use trade_journal.Platform.Laws.{tally}
use trade_journal.Store.World.{World}
use trade_journal.Store.World.Frames.{call_answered}
use trade_journal.Cache.LastLoss.{last_loss_key, set_last_loss}
use trade_journal.Cache.Metrics.{set_cached}
use trade_journal.Cache.Stream.{add, arg_texts}
use trade_journal.Cache.Window.{add_nx}
use trade_journal.Api.TradeHandler.{
  Task, store_last_loss, publish, add_to_window, cache_answer, run_task,
}

-- Goroutines that run one after the other, in any order; each makes one call.
pub data Runs {p : Platform} : List Task → World p → World p → Type 0 where
  done : (w : World p) → Runs [] w w
  pick :
      (us vs : List Task) (t : Task) {ts : List Task} {w v : World p}
      → ts ≡ us ++ t ∷ vs
      → Runs (us ++ vs) (run_task t w) v
      → Runs ts w v

-- What a goroutine writes.
abbrev pub effect : (p : Platform) → Task → Time → p.Redis → p.Redis
effect p (store_last_loss user exit_at) now r =
    p.redis_set r now (last_loss_key user) (digits exit_at) (90 * second)
effect p (publish values) now r = p.xadd r "trades:events" (arg_texts p values)
effect p (add_to_window key score member) now r = p.zadd_nx r key score member
effect p (cache_answer key text) now r = p.redis_set r now key (bytes text) (5 * minute)

module _ {p : Platform} where
  run_task_answered :
      (t : Task) (w : World p)
      → w.schedule ≡ []
      → run_task t w ≡ record w { redis = effect p t w.now w.redis }
  unfolding run_task set_last_loss add add_nx set_cached
  run_task_answered (store_last_loss user exit_at) w quiet = ap (λ x. x.1) (call_answered _ w quiet)
  run_task_answered (publish values) w quiet = ap (λ x. x.1) (call_answered _ w quiet)
  run_task_answered (add_to_window key score member) w quiet =
      ap (λ x. x.1) (call_answered _ w quiet)
  run_task_answered (cache_answer key text) w quiet = ap (λ x. x.1) (call_answered _ w quiet)

  run_task_quiet : (t : Task) (w : World p) → w.schedule ≡ [] → (run_task t w).schedule ≡ []
  run_task_quiet t w quiet = ap (λ (v : World p). v.schedule) (run_task_answered t w quiet) ∙ quiet

tally-middle :
    (q : Task → Bool) (us vs : List Task) (t : Task)
    → tally q (us ++ t ∷ vs) ≡ (if q t then 1 else 0) + tally q (us ++ vs)
tally-middle q [] vs t = refl
tally-middle q (u ∷ us) vs t = omega (arith, tally-middle q us vs t)

All-middle :
    (P : Task → Type 0) (us vs : List Task) (t : Task)
    → All P (us ++ t ∷ vs)
    → P t × All P (us ++ vs)
All-middle P [] vs t (h, hs) = (h, hs)
All-middle P (u ∷ us) vs t (h, hs) = let (k, ks) = All-middle P us vs t hs in (k, (h, ks))

-- Something that is observed of the world, and the goroutines that change it: all others keep it.
module _ {p : Platform} {X : Type 0} (obs : World p → X) (sets : Task → Bool)
    (keeps : (t : Task) (w : World p)
      → sets t ≡ false
      → obs (record w { redis = effect p t w.now w.redis }) ≡ obs w) where
  run_task_keeps :
      (t : Task) (w : World p) → w.schedule ≡ [] → sets t ≡ false → obs (run_task t w) ≡ obs w
  run_task_keeps t w quiet other = ap obs (run_task_answered t w quiet) ∙ keeps t w other

  -- In whatever order they run, goroutines that do not change it leave it as it was.
  Runs-keep :
      {ts : List Task} {w v : World p}
      → Runs ts w v
      → w.schedule ≡ []
      → tally sets ts ≡ 0
      → obs v ≡ obs w
  Runs-keep (done w) quiet nothing = refl
  Runs-keep (pick us vs t {w = w} order rest) quiet nothing =
      let count = ap (tally sets) order ∙ tally-middle sets us vs t in
      let other : sets t ≡ false = ground (arith, count, nothing) in
      Runs-keep rest (run_task_quiet t w quiet) (ground (arith, count, nothing))
      ∙ run_task_keeps t w quiet other

  module _ (t0 : Task) (now : Time) (x c : X)
      (changes : (w : World p)
        → w.now ≡ now
        → obs w ≡ x
        → obs (record w { redis = effect p t0 w.now w.redis }) ≡ c) where
    -- Where one of them changes it, it is changed in the end, in whatever order they run.
    pub Runs-change :
        {ts : List Task} {w v : World p}
        → Runs ts w v
        → w.schedule ≡ []
        → w.now ≡ now
        → All (λ t. (sets t ≡ false) ⊎ (t ≡ t0)) ts
        → tally sets ts ≡ 1
        → obs w ≡ x
        → obs v ≡ c
    Runs-change (done w) quiet at others one before = absurd (omega (arith, one))
    Runs-change (pick us vs t {w = w} order rest) quiet at others one before =
        let count = ap (tally sets) order ∙ tally-middle sets us vs t in
        let (this, these) =
          All-middle (λ t. (sets t ≡ false) ⊎ (t ≡ t0)) us vs t
            (subst (All (λ t. (sets t ≡ false) ⊎ (t ≡ t0))) order others) in
        let calm = run_task_quiet t w quiet in
        let answered = run_task_answered t w quiet in
        elim (Bool-cases (sets t)) [
          | inr other ↦
              Runs-change rest calm (ap (λ (u : World p). u.now) answered ∙ at) these
                (ground (arith, count, one, other)) (run_task_keeps t w quiet other ∙ before)
          | inl it ↦
              let same : t ≡ t0 = elim this [ inl other ↦ cc | inr same ↦ same ] in
              Runs-keep rest calm (ground (arith, count, one, it))
              ∙ ap obs answered
              ∙ ap (λ t. obs (record w { redis = effect p t w.now w.redis })) same
              ∙ changes w at before
        ]
