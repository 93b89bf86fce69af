-- ===== src/Orm/Migrations/Whole.antt =====
-- `migrate`, `flush` and `rollback` of rwf/src/model/migrations/mod.rs: the folder is read, then its
-- migrations are applied or reverted.
pub mod Applied
use rwf.Prelude.{none, List, Bool}
use rwf.Prelude.Text.{Text}
use rwf.Orm.Value.{Printers}
use rwf.Orm.Migrations.{up, down, Migration, FileNames}
use rwf.Orm.Migrations.Store.{Store, Folder, Run, ◌>>=◌}
use rwf.Orm.Migrations.Apply.{apply}
use rwf.Orm.Migrations.Sync.{Checks, sync}

module _ (store : Store) (folder : Folder) (p : Printers) (log_queries : Bool)
    (now : store.Tx → Text) (f : FileNames) (iterate : Checks → Checks)
    (bootstrap : List Text) where
  open store use {State}

  abbrev synced : Run State (List Migration)
  synced = sync store folder p log_queries f iterate bootstrap

  unfoldable pub migrate : Run State (List Migration)
  unfolding apply sync
  migrate = do ms ← synced; apply store folder p log_queries now ms up none

  -- Also `rollback`
  unfoldable flush : Run State (List Migration)
  unfolding apply sync
  flush = do ms ← synced; apply store folder p log_queries now ms down none
