-- ===== src/Cache/LastLoss/Laws.antt =====
-- What reading and writing a user's last loss do to the world.
use trade_journal.Prelude.{String, ◌≡◌, ap, []}
use trade_journal.Prelude.Int.{ℤ}
use trade_journal.Platform.{Platform}
use trade_journal.Store.World.{World, call, command, continue_with, returning}
use trade_journal.Store.World.Frames.{command_frame, bind_keeps, call_answered}
use trade_journal.Cache.LastLoss.{get_last_loss, set_last_loss, last_loss_key, int_reply}

module _ {p : Platform} where
  pub get_last_loss-db : (user : String) (w : World p) → (get_last_loss user w).1.db ≡ w.db
  unfolding get_last_loss
  get_last_loss-db user w =
      bind_keeps (call (command (λ now r. (p.redis_get r now (last_loss_key user), r))))
        (λ reply. returning (int_reply reply)) w (λ v. v.db ≡ w.db) (command_frame _ w) (λ a v h. h)

  pub set_last_loss-db :
      (user : String) (exit_at : ℤ) (w : World p) → (set_last_loss user exit_at w).1.db ≡ w.db
  unfolding set_last_loss
  set_last_loss-db user exit_at w = command_frame _ w

  -- A read that is answered leaves the world as it is.
  pub get_last_loss_answered :
      (user : String) (w : World p)
      → w.schedule ≡ []
      → get_last_loss user w ≡ (int_reply (p.redis_get w.redis w.now (last_loss_key user)), w)
  unfolding get_last_loss
  get_last_loss_answered user w quiet =
      ap (continue_with (λ reply. returning (int_reply reply)))
        (call_answered (command (λ now r. (p.redis_get r now (last_loss_key user), r))) w quiet)
