-- ===== src/Pipeline/Worker/Totals.antt =====
-- What a history of the worker does to the tables.
use trade_journal.Prelude.{
  true, ℕ, suc, ◌+◌, ◌≤◌, ◌≡◌, refl, ap, Result, sym, subst, List, [], ◌∷◌, ◌++◌, length,
  length-append, arith,
}
use trade_journal.Platform.{Platform, Message}
use trade_journal.Platform.Laws.{messages}
use trade_journal.Store.World.{World}
use trade_journal.Store.Tables.{Db}
use trade_journal.Store.World.Frames.{command_frame, call_keeps}
use trade_journal.Store.Metrics.Counts.{AreBalanced}
use trade_journal.Store.Metrics.Sums.{counted}
use trade_journal.Cache.Stream.{Streams, add, ack, read_group}
use trade_journal.Pipeline.{Fields, process_message}
use trade_journal.Pipeline.Accounting.{process_message-Adds}
use trade_journal.Pipeline.Balance.{process_message-AreBalanced}
use trade_journal.Pipeline.Worker.{read, handle, handle_all, loop}
use trade_journal.Pipeline.Worker.History.{
  History, start, published, paused, failed, handled, contents, handle_streams_once, loop-Continues,
}
use trade_journal.Pipeline.Worker.Order.{handle_streams_all}

length-contents : (ms : List Message) → length (contents ms) ≡ length ms
length-contents [] = refl
length-contents (m ∷ ms) = ap suc (length-contents ms)

-- The tables after so many events, from tables that counted `t` trades.
pub record IsSound {p : Platform} (t n : ℕ) (d : Db p) : Type 0 where
  pub balanced : AreBalanced d
  pub at_least : t ≤ counted d
  pub at_most : counted d ≤ t + n

pub read_frame :
    {p : Platform} (v v' : World p) (x : Result Streams) → read v ≡ (x, v') → v'.db ≡ v.db
unfolding read_group
read_frame {p} v v' x e =
    subst (λ (y : Result Streams × World p). y.1.db ≡ v.db) e
      (call_keeps (λ u. u.db ≡ v.db) _ (λ u h. h) (λ u s h. h) v refl)

module _ {p : Platform} {t : ℕ} where
  handle-IsSound :
      (n : ℕ) (m : Message) (w : World p) → IsSound t n w.db → IsSound t (n + 1) (handle m w).db
  unfolding handle ack
  handle-IsSound n m w h =
      let v = process_message m.values w in
      let added = process_message-Adds (λ _ _. true) m.values w in
      let processed : IsSound t (n + 1) v.db = record {
        balanced = process_message-AreBalanced m.values w h.balanced;
        at_least = omega (arith, added.0, h.at_least);
        at_most = omega (arith, added.1, h.at_most);
      } in
      subst (IsSound t (n + 1)) (sym (command_frame _ v)) processed

  handle_all-IsSound :
      (ms : List Message) (n : ℕ) (w : World p)
      → IsSound t n w.db
      → IsSound t (n + length ms) (handle_all ms w).db
  unfolding handle_all
  handle_all-IsSound [] n w h = subst (λ k. IsSound t k w.db) (omega arith) h
  handle_all-IsSound (m ∷ ms) n w h =
      subst (λ k. IsSound t k (handle_all ms (handle m w)).db) (omega arith)
        (handle_all-IsSound ms (n + 1) (handle m w) (handle-IsSound n m w h))

  pub History-IsSound :
      {w v : World p} {es hs : List Fields} {n : ℕ}
      → History w es hs v
      → IsSound t n w.db
      → IsSound t (n + length hs) v.db
  unfolding add
  History-IsSound {w} {n = n} start h = subst (λ k. IsSound t k w.db) (omega arith) h
  History-IsSound (published {v} values k) h =
      subst (IsSound t _) (sym (command_frame _ v)) (History-IsSound k h)
  History-IsSound (paused k) h = History-IsSound k h
  History-IsSound (failed {v} {v'} e k) h =
      subst (IsSound t _) (sym (read_frame v v' _ e)) (History-IsSound k h)
  History-IsSound {n} (handled {hs} {v} {v'} {streams} e k) h =
      let ms = messages streams in
      let before = subst (IsSound t _) (sym (read_frame v v' _ e)) (History-IsSound k h) in
      let size : n + length hs + length ms ≡ n + length (hs ++ contents ms) =
        omega (arith, length-append hs (contents ms), length-contents ms) in
      rw (sym (handle_streams_once streams v'), handle_streams_all streams v')
        (subst (λ j. IsSound t j (handle_all ms v').db) size
          (handle_all-IsSound ms (n + length hs) v' before))

-- A worker that goes on after any history, however many calls fail, keeps the buckets balanced, and
-- they count at most one trade more for each event that was handled, and none less than at first.
pub loop-IsSound :
    {p : Platform} (n : ℕ) {w v : World p} {es hs : List Fields}
    → History w es hs v
    → AreBalanced w.db
    → (later : List Fields) × History w es later (loop n v)
      × IsSound (counted w.db) (length later) (loop n v).db
loop-IsSound n {w} {v} {es} h balanced =
    let (later, longer) = loop-Continues w es n v (_, h) in
    let same : 0 + length later ≡ length later = omega arith in
    let sound =
      History-IsSound {n = 0} longer
        (record { balanced = balanced; at_least = omega arith; at_most = omega arith }) in
    (later, longer, subst (λ k. IsSound (counted w.db) k (loop n v).db) same sound)
