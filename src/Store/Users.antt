-- ===== src/Store/Users.antt =====
-- internal/store/user_store.go
use trade_journal.Prelude.{String, Option, find, ◌==◌, Result, ok, err}
use trade_journal.Platform.{Platform}
use trade_journal.Store.Columns.{uuid_param}
use trade_journal.Store.Tables.{Db, User}
use trade_journal.Store.World.{Call, lookup}

module _ {p : Platform} where
  unfoldable pub select_user : String → Db p → Result (Option User)
  select_user id d = elim (uuid_param p id) [
    | err e ↦ err e
    | ok u ↦ ok (find (λ (x : User). x.user_id == u) d.users)
  ]

  unfoldable pub get_user : String → Call p User
  get_user id = lookup (select_user id)
