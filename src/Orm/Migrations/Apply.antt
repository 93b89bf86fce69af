-- ===== src/Orm/Migrations/Apply.antt =====
-- `Migrations::apply` of rwf/src/model/migrations/mod.rs, and `Pool::with_transaction` around each
-- migration.
pub mod Chosen
pub mod Failure
use rwf.Prelude.{
  Option, none, some, List, [], ◌∷◌, Bool, true, false, reverse, is_empty, if◌then◌else◌,
}
use rwf.Prelude.Int.{ℤ, eqb_ℤ}
use rwf.Prelude.Text.{Text, codes, split, trim}
use rwf.Prelude.Outcome.{Outcome, ok, err, panic, out_of_fuel}
use rwf.Orm.Value.{Printers}
use rwf.Orm.Query.Execute.{Error, other, fetch, execute}
use rwf.Orm.Model
use rwf.Orm.Migrations.{Direction, up, down, Migration, names, save, path}
use rwf.Orm.Migrations.Store.{
  Store, Folder, root_path, Run, connection, transaction, ◌>>=◌, ◌>>◌, pure, bound_to,
}

kept : List Text → List Text
unfolding trim
kept [] = []
kept (q ∷ qs) = let rest = kept qs in if is_empty (trim q) then rest else trim q ∷ rest

-- The queries of a file
queries_of : Text → List Text
unfolding split kept
queries_of sql = kept (split b';' sql)

abbrev is_some : {A : Type 0} → Option A → Bool
is_some none = false
is_some (some a) = true

-- A migration that the direction leaves out
abbrev pub skips : Direction → Migration → Bool
skips up m = is_some m.applied_at
skips down m = if is_some m.applied_at then false else true

abbrev pub is_version : Option ℤ → Migration → Bool
is_version none m = false
is_version (some v) m = eqb_ℤ m.version v

abbrev mark : Direction → Text → Migration → Migration
mark up now m = record m { applied_at = some now }
mark down now m = record m { applied_at = none }

module _ (store : Store) (folder : Folder) (p : Printers) (log_queries : Bool)
    (now : store.Tx → Text) where
  open store use {State, Tx, Row, begin, query_cached, query, commit, from_row}
  open folder use {join, read_to_string}

  abbrev done : {S A : Type 0} → Outcome Error A × S → Outcome Error (Unit {0}) × S
  done r = bound_to (λ _. pure (ok tt)) r

  -- A query that fails is logged, its error replaced.
  abbrev failed : {A : Type 0} → Outcome Error A × Tx → Outcome Error A × Tx
  failed (err e, t) = (err (other (codes "migration failed")), t)
  failed r = r

  run_queries : List Text → Run Tx (Unit {0})
  run_queries [] = pure (ok tt)
  run_queries (q ∷ qs) = (λ t. done (failed (query q t))) >> run_queries qs

  save_marked : Direction → Migration → Run Tx (Unit {0})
  unfolding fetch save
  save_marked d m t =
      done (fetch (transaction store) p log_queries from_row (save (mark d (now t) m)) t)

  -- What a migration does within its transaction
  work : Direction → Migration → List Text → Run Tx (Unit {0})
  unfolding run_queries save_marked
  work d m qs = do
    λ t. done (query_cached (codes "SET LOCAL client_min_messages TO WARNING") [] t)
    run_queries qs
    save_marked d m

  -- A transaction that failed is dropped, and so rolled back.
  abbrev finished : Outcome Error (Unit {0}) × Tx → Run State (Unit {0})
  finished (ok _, t) = commit t
  finished (err e, t) = pure (err e)
  finished (panic, t) = pure panic
  finished (out_of_fuel, t) = pure out_of_fuel

  abbrev with_transaction : Run Tx (Unit {0}) → Run State (Unit {0})
  with_transaction f = begin >>= λ t. finished (f t)

  -- The body of the loop, for a migration that is not skipped
  pub migrate_one : Direction → Migration → Run State (Unit {0})
  unfolding root_path queries_of work path
  migrate_one d m = do
    root ← pure (root_path folder)
    sql ← pure (read_to_string (join root (path d m)))
    with_transaction (work d m (queries_of sql))

  abbrev next : Direction → Migration → Run State (Unit {0}) → Run State (Unit {0})
  next d m later = if skips d m then later else (migrate_one d m >> later)

  unfoldable pub loop : Direction → Option ℤ → (stop : Bool) → List Migration → Run State (Unit {0})
  unfolding migrate_one
  loop d version stop [] = pure (ok tt)
  loop d version true (m ∷ ms) = pure (ok tt)
  loop d version false (m ∷ ms) = next d m (loop d version (is_version version m) ms)

  abbrev in_order : Direction → List Migration → List Migration
  in_order up ms = ms
  in_order down ms = reverse ms

  -- `Migrations::load`
  pub load : Run State (List Migration)
  unfolding execute
  load = execute (connection store) p log_queries from_row (Model.all names)

  unfoldable pub apply : List Migration → Direction → Option ℤ → Run State (List Migration)
  unfolding loop load
  apply migrations d version = do loop d version false (in_order d migrations); load
