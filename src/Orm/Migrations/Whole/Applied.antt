-- ===== src/Orm/Migrations/Whole/Applied.antt =====
-- What `migrate` applies, and in which order.
use rwf.Prelude.{none, List, [], ◌∷◌, Bool, ◌≡◌, refl, ap, ◌∙◌}
use rwf.Prelude.Text.{Text}
use rwf.Prelude.Outcome.{ok}
use rwf.Orm.Value.{Printers}
use rwf.Orm.Migrations.{up, Migration, FileNames}
use rwf.Orm.Migrations.Store.{Store, Folder, ◌>>◌, then_lem}
use rwf.Orm.Migrations.Apply.{load, apply}
use rwf.Orm.Migrations.Apply.Chosen.{up_to, pending, apply_each, loop-chosen}
use rwf.Orm.Migrations.Sync.{Checks, sync}
use rwf.Orm.Migrations.Whole.{migrate}
use rwf.Orm.Migrations.Sync.Sorted.{IsSorted, sync-IsSorted}

up_to-none : (ms : List Migration) → up_to none ms ≡ ms
up_to-none [] = refl
up_to-none (m ∷ ms) = ap (λ r. m ∷ r) (up_to-none ms)

module _ (store : Store) (folder : Folder) (p : Printers) (log_queries : Bool) (f : FileNames)
    (iterate : Checks → Checks) (bootstrap : List Text) (now : store.Tx → Text) where
  open store use {State}

  -- Where `migrate` succeeds, `sync` gave migrations by ascending version, and `migrate` did what
  -- applying those of them that were not applied, one by one and in this order, and loading the
  -- table then does.
  pub migrate_lem :
      (s : State) (out : List Migration)
      → (migrate store folder p log_queries now f iterate bootstrap s).0 ≡ ok out
      → (ms : List Migration) × ((sync store folder p log_queries f iterate bootstrap s).0 ≡ ok ms)
        × IsSorted ms
        × (migrate store folder p log_queries now f iterate bootstrap s
            ≡ (apply_each store folder p log_queries now up (pending up ms)
                  >> load store folder p log_queries now)
                (sync store folder p log_queries f iterate bootstrap s).1)
  unfolding migrate apply
  migrate_lem s out e =
      let first = sync store folder p log_queries f iterate bootstrap in
      let rest = λ (ms : List Migration). apply store folder p log_queries now ms up none in
      let (ms, h, k) = then_lem first rest s out e in
      let same =
        loop-chosen store folder p log_queries now up none ms
        ∙ ap (λ l. apply_each store folder p log_queries now up (pending up l)) (up_to-none ms) in
      (
        ms,
        h,
        sync-IsSorted store folder p log_queries f iterate bootstrap s ms h,
        k ∙ ap (λ m. (m >> load store folder p log_queries now) (first s).1) same,
      )
