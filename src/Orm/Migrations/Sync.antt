-- ===== src/Orm/Migrations/Sync.antt =====
-- `Migrations::sync` of rwf/src/model/migrations/mod.rs. The order in which a map is iterated over is
-- a parameter, and so are the queries of `bootstrap.sql`, split and trimmed.
pub mod Collected
pub mod Paired
pub mod Sorted
use rwf.Prelude.{ℕ, Option, none, some, List, [], ◌∷◌, ◌++◌, Bool, ◌||◌, not, if◌then◌else◌}
use rwf.Prelude.Int.{pos, wrap_i64, ltb_ℤ}
use rwf.Prelude.Text.{Text, codes, text_eq, starts_with}
use rwf.Prelude.Outcome.{Outcome, ok, err, panic, out_of_fuel}
use rwf.Orm.Value.{Value, Printers, new_column}
use rwf.Orm.Query
use rwf.Orm.Query.{Query}
use rwf.Orm.Query.Execute.{Error, other, fetch}
use rwf.Orm.Migrations.{
  Migration, MigrationFile, FileNames, Check, names, parse_file, default, add, valid, version_of,
}
use rwf.Orm.Migrations.Store.{Store, Folder, root_path, Run, transaction, ◌>>=◌, ◌>>◌, pure}

-- The map of the checks by name
abbrev pub Checks : Type 0
Checks = List (Text × Check)

-- `entry(name).or_insert_with(default).add(file)`
pub entry_add : MigrationFile → Checks → Checks
unfolding text_eq add
entry_add file [] = (file.name, add file default) ∷ []
entry_add file ((n, c) ∷ rest) =
    let later = entry_add file rest in
    if text_eq n file.name then (n, add file c) ∷ rest else (n, c) ∷ later

-- Directories and hidden files are left out.
pub left_out : Text → Bool → Bool
unfolding starts_with
left_out name is_file = not is_file || starts_with name (codes ".")

abbrev pub insert_by : Migration → List Migration → List Migration
insert_by m [] = m ∷ []
insert_by m (x ∷ xs) =
    let rest = insert_by m xs in if ltb_ℤ x.version m.version then x ∷ rest else m ∷ x ∷ xs

-- `sort_by_key`, which is stable
abbrev pub sort_by_version : List Migration → List Migration
sort_by_version [] = []
sort_by_version (m ∷ ms) = insert_by m (sort_by_version ms)

module _ (f : FileNames) where
  abbrev pub added :
      Outcome Error MigrationFile → Checks → (Checks → Outcome Error Checks) → Outcome Error Checks
  added (ok file) checks k = k (entry_add file checks)
  added (err e) checks k = err e
  added panic checks k = panic
  added out_of_fuel checks k = out_of_fuel

  pub collect : List (Text × Bool) → Checks → Outcome Error Checks
  unfolding entry_add parse_file left_out
  collect [] checks = ok checks
  collect ((name, is_file) ∷ entries) checks =
      let later = collect entries in
      if left_out name is_file then later checks else added (parse_file f name) checks later

module _ (store : Store) (folder : Folder) (p : Printers) (log_queries : Bool) (f : FileNames)
    (iterate : Checks → Checks) (bootstrap : List Text) where
  open store use {State, Tx, begin, query, commit, from_row}
  open folder use {read_dir}

  pub gathered : Outcome Error (List (Text × Bool)) → Outcome Error Checks
  unfolding collect
  gathered (ok entries) = collect f entries []
  gathered (err e) = err e
  gathered panic = panic
  gathered out_of_fuel = out_of_fuel

  -- Without the folder there are no files.
  abbrev pub found : Outcome Error Text → Outcome Error Checks
  found (ok root) = gathered (read_dir root)
  found (err e) = ok []
  found panic = panic
  found out_of_fuel = out_of_fuel

  pub run_bootstrap : List Text → Run Tx (Unit {0})
  run_bootstrap [] = pure (ok tt)
  run_bootstrap (q ∷ qs) = (query q >>= (λ _. pure (ok tt))) >> run_bootstrap qs

  fetched : Option Query → Run Tx Migration
  unfolding fetch
  fetched none = pure panic
  fetched (some q) = fetch (transaction store) p log_queries from_row q

  abbrev and_then : Option Query → (Query → Option Query) → Option Query
  and_then none g = none
  and_then (some q) g = g q

  named : Text → ℕ → Option Query
  unfolding Query.filter new_column wrap_i64
  named name version =
      and_then (Query.filter (new_column [] (codes "name")) (Value.string name) (Query.new names))
        (Query.filter (new_column [] (codes "version")) (Value.integer (wrap_i64 (pos version))))

  -- The migration of a name and a version, found or created
  pub find_or_create : Text → Option ℕ → Run Tx Migration
  unfolding named Query.find_or_create fetched
  find_or_create name none = pure panic
  find_or_create name (some version) =
      fetched (and_then (named name version) (Query.find_or_create names))

  abbrev pub checked : Bool → Run Tx (List Migration) → Run Tx (List Migration)
  checked b next = if b then next else pure (err (other (codes "migrations file missing")))

  pub each_check : Checks → List Migration → Run Tx (List Migration)
  unfolding valid find_or_create
  each_check [] migrations = pure (ok migrations)
  each_check ((name, c) ∷ checks) migrations = checked (valid c) (do
    migration ← find_or_create name (version_of c.ups)
    each_check checks (migrations ++ migration ∷ []))

  -- What is done within the transaction, and the commit
  abbrev pub committed : Outcome Error (List Migration) × Tx → Run State (List Migration)
  committed (ok migrations, t) = do commit t; pure (ok (sort_by_version migrations))
  committed (err e, t) = pure (err e)
  committed (panic, t) = pure panic
  committed (out_of_fuel, t) = pure out_of_fuel

  pub synced : Checks → Tx → Run State (List Migration)
  unfolding run_bootstrap each_check
  synced checks t = committed ((run_bootstrap bootstrap >> each_check (iterate checks) []) t)

  unfoldable pub sync : Run State (List Migration)
  unfolding root_path gathered synced
  sync = do checks ← pure (found (root_path folder)); t ← begin; synced checks t
