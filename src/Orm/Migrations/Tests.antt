-- ===== src/Orm/Migrations/Tests.antt =====
-- Migrations at fixed inputs.
use rwf.Prelude.{
  ℕ, suc, Option, none, some, List, [], ◌∷◌, ◌++◌, Bool, true, false, if◌then◌else◌, ◌≡◌, refl,
}
use rwf.Prelude.Int.{ℤ, pos}
use rwf.Prelude.Text.{Text, codes, text_eq}
use rwf.Prelude.Outcome.{Outcome, ok, err}
use rwf.Orm.Value.{Printers}
use rwf.Orm.Query.Execute.{Error, other}
use rwf.Orm.Migrations.{up, down, Migration, FileNames, path}
use rwf.Orm.Migrations.Store.{Store, Folder, root_path, ◌>>◌}
use rwf.Orm.Migrations.Apply.{loop, load}
use rwf.Orm.Migrations.Apply.Chosen.{chosen, pending, apply_each, loop-chosen}
use rwf.Orm.Migrations.Apply.Failure.{Stops, loop-Stops}
use rwf.Orm.Migrations.Sync.{sync}
use rwf.Orm.Migrations.Sync.Sorted.{IsSorted}
use rwf.Orm.Migrations.Whole.{migrate}
use rwf.Orm.Migrations.Whole.Applied.{migrate_lem}
use rwf.Orm.Migrations.Sync.Collected.{files_of}
use rwf.Orm.Migrations.Sync.Paired.{Paired, sync-Paired}

abbrev no_floats : Printers
no_floats = record { f64_print = λ n. []; f32_print = λ n. []; str_lower = λ t. t }

abbrev migration : ℕ → Option Text → Migration
migration n applied_at = record {
  id = some (pos n);
  version = pos n;
  name = codes "a";
  applied_at = applied_at;
}

-- A database that counts the statements of what is committed, where one fails
abbrev store : Store
store = record {
  State = ℕ;
  Tx = ℕ;
  Row = Migration;
  connect = λ s. (ok tt, s);
  fetch_cached = λ text values s. (ok [], s);
  begin = λ s. (ok s, s);
  query_cached = λ text values t. (ok (migration 1 none ∷ []), suc t);
  query =
      λ text t. (if text_eq text (codes "bad") then err (other (codes "syntax")) else ok [], suc t);
  commit = λ t s. (ok tt, t);
  from_row = λ m. ok m;
}

abbrev folder : Folder
folder = record {
  current_dir = ok (codes "app");
  join = λ a b. a ++ (codes "/" ++ b);
  is_dir = λ p. text_eq p (codes "app/migrations");
  read_dir = λ p. ok (
      (codes "1_a.up.sql", true)
      ∷ (codes ".hidden", true)
      ∷ (codes "old", false)
      ∷ (codes "1_a.down.sql", true)
      ∷ []);
  read_to_string = λ p.
      ok (if text_eq p (codes "app/migrations/2_a.up.sql") then codes "x; bad" else codes "x; y ;");
}

abbrev now : ℕ → Text
now t = codes "now"

abbrev migrations : List Migration
migrations =
    migration 0 (some (codes "then")) ∷ migration 1 none ∷ migration 2 none ∷ migration 3 none ∷ []

abbrev run : Option ℤ → ℕ → Outcome Error (Unit {0}) × ℕ
run v s = loop store folder no_floats false now up v false migrations s

first_sample : run (some (pos 1)) 0 ≡ (ok tt, 4)
unfolding loop text_eq
first_sample = refl

fails_sample : run none 0 ≡ (err (other (codes "migration failed")), 4)
unfolding loop text_eq
fails_sample = refl

loop-chosen_example :
    loop store folder no_floats false now down (some (pos 1)) false migrations
    ≡ apply_each store folder no_floats false now down (chosen down (some (pos 1)) migrations)
loop-chosen_example = loop-chosen store folder no_floats false now down (some (pos 1)) migrations

abbrev failure : Outcome Error (Unit {0})
failure = err (other (codes "migration failed"))

loop-Stops_example :
    Stops store folder no_floats false now up (chosen up none migrations) 0 failure 4
loop-Stops_example =
    loop-Stops store folder no_floats false now (λ s. refl) (λ x s n. absurd (n refl)) up none
      migrations 0 4 failure (cc) fails_sample

abbrev file_names : FileNames
file_names = record {
  captures = λ t.
      if text_eq t (codes "1_a.up.sql")
      then some (codes "1", codes "a", codes "up")
      else some (codes "1", codes "a", codes "down");
  parse_u64 = λ t. some 1;
}

abbrev synced : Outcome Error (List Migration) × ℕ
synced = sync store folder no_floats false file_names (λ cs. cs) (codes "x" ∷ []) 0

synced_sample : synced ≡ (ok (migration 1 none ∷ []), 2)
unfolding sync text_eq
synced_sample = refl

abbrev entries : List (Text × Bool)
entries =
    (codes "1_a.up.sql", true)
    ∷ (codes ".hidden", true)
    ∷ (codes "old", false)
    ∷ (codes "1_a.down.sql", true)
    ∷ []

sync_ok : synced.0 ≡ ok (migration 1 none ∷ [])
unfolding sync text_eq
sync_ok = refl

root_ok : root_path folder ≡ ok (codes "app/migrations")
unfolding root_path text_eq
root_ok = refl

sync-Paired_example : Paired (codes "a") (files_of file_names entries)
sync-Paired_example =
    sync-Paired store folder no_floats false file_names (λ cs. cs) (codes "x" ∷ []) (λ P cs h. h)
      (codes "app/migrations") entries 0 (migration 1 none ∷ []) (codes "a") root_ok refl sync_ok

-- A version that the file of a migration writes with leading zeros is written without them.
path_sample : path up (migration 1 none) ≡ codes "1_a.up.sql"
unfolding path
path_sample = refl

abbrev migrated : Outcome Error (List Migration) × ℕ
migrated = migrate store folder no_floats false now file_names (λ cs. cs) (codes "x" ∷ []) 0

migrated_ok : migrated.0 ≡ ok []
unfolding migrate text_eq
migrated_ok = refl

migrate_lem_example :
    (ms : List Migration) × (synced.0 ≡ ok ms)
    × IsSorted ms
    × (migrated
        ≡ (apply_each store folder no_floats false now up (pending up ms)
              >> load store folder no_floats false now)
            synced.1)
migrate_lem_example =
    migrate_lem store folder no_floats false file_names (λ cs. cs) (codes "x" ∷ []) now 0 []
      migrated_ok
