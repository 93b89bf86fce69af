-- ===== src/Orm/Migrations.antt =====
-- Migrations, their files and their table: rwf/src/model/migrations/mod.rs and
-- rwf/src/model/migrations/model.rs. The regex of the file names is a parameter.
pub mod Store
pub mod Sync
pub mod Apply
pub mod Whole
mod Tests
use rwf.Prelude.{
  ℕ, Option, none, some, List, [], ◌∷◌, ◌++◌, Bool, false, ◌&&◌, not, length, ◌==◌, if◌then◌else◌,
}
use rwf.Prelude.Int.{ℤ}
use rwf.Prelude.Text.{Text, codes, text_eq, print_i64}
use rwf.Prelude.Outcome.{Outcome, ok, err, panic}
use rwf.Orm.Value
use rwf.Orm.Value.{Value, absent, present}
use rwf.Orm.Query.{Names, Query}
use rwf.Orm.Query.Execute.{Error, other}
use rwf.Orm.Model

pub data Direction : Type 0 where
  up down : Direction

-- A row of `rwf_migrations`; the time is its text.
pub record Migration : Type 0 where
  pub id : Option ℤ
  pub version : ℤ
  pub name : Text
  pub applied_at : Option Text

abbrev pub names : Names
names = record {
  table_name = codes "rwf_migrations";
  primary_key = codes "id";
  foreign_key = codes "rwf_migration_id";
  column_names = codes "version" ∷ codes "name" ∷ codes "applied_at" ∷ [];
}

abbrev optional_of : {A : Type 0} → (A → Value) → Option A → Value
optional_of f none = Value.optional absent
optional_of f (some a) = Value.optional (present (f a))

unfoldable id_value : Migration → Value
id_value m = optional_of Value.integer m.id

values : Migration → List Value
values m =
    Value.integer m.version ∷ Value.string m.name ∷ optional_of Value.timestamp_t m.applied_at ∷ []

-- `Model::save`
pub save : Migration → Query
unfolding id_value values Model.save
save m = Model.save names (id_value m) (values m)

abbrev suffix : Direction → Text
suffix up = codes ".up.sql"
suffix down = codes ".down.sql"

-- `Migration::path`
pub path : Direction → Migration → Text
unfolding print_i64
path d m = print_i64 m.version ++ (codes "_" ++ (m.name ++ suffix d))

pub record MigrationFile : Type 0 where
  pub version : ℕ
  pub name : Text
  pub direction : Direction

-- What the regex captures of a name, and `str::parse::<u64>`
pub record FileNames : Type 0 where
  pub captures : Text → Option (Text × Text × Text)
  pub parse_u64 : Text → Option ℕ

abbrev direction_of : Text → Option Direction
direction_of t =
    if text_eq t (codes "up") then some up else if text_eq t (codes "down") then some down else none

abbrev file_of : Option ℕ → Text → Option Direction → Outcome Error MigrationFile
file_of (some version) name (some d) = ok record { version = version; name = name; direction = d }
file_of _ name _ = panic

module _ (f : FileNames) where
  open f use {captures, parse_u64}

  abbrev captured : Text → Option (Text × Text × Text) → Outcome Error MigrationFile
  captured name none =
      err (other (codes "\"" ++ (name ++ codes "\" is not a valid migration file name")))
  captured name (some (version, short, direction)) =
      file_of (parse_u64 version) short (direction_of direction)

  -- `MigrationFile::parse`
  pub parse_file : Text → Outcome Error MigrationFile
  unfolding text_eq
  parse_file name = captured name (captures name)

-- The files of one name
pub record Check : Type 0 where
  pub ups : List MigrationFile
  pub downs : List MigrationFile

abbrev pub default : Check
default = record { ups = []; downs = [] }

abbrev add_to : Direction → MigrationFile → Check → Check
add_to up file c = record c { ups = c.ups ++ file ∷ [] }
add_to down file c = record c { downs = c.downs ++ file ∷ [] }

pub add : MigrationFile → Check → Check
add file c = add_to file.direction file c

abbrev same_version : List MigrationFile → List MigrationFile → Bool
same_version (u ∷ us) (d ∷ ds) = u.version == d.version
same_version _ _ = false

pub valid : Check → Bool
valid c = length c.ups == 1 && (length c.downs == 1 && same_version c.ups c.downs)

-- `Check::version`, an `unwrap` of the first
abbrev pub version_of : List MigrationFile → Option ℕ
version_of [] = none
version_of (u ∷ us) = some u.version
