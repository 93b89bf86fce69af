-- ===== src/Orm/Migrations/Apply/Chosen.antt =====
-- Which migrations are applied, and what one that fails leaves.
use rwf.Prelude.{
  Option, List, [], ◌∷◌, Bool, true, false, Bool-cases, if◌then◌else◌, ◌≡◌, refl, inl, inr,
}
use rwf.Prelude.Int.{ℤ}
use rwf.Prelude.Text.{Text}
use rwf.Prelude.Outcome.{ok}
use rwf.Orm.Value.{Printers}
use rwf.Orm.Migrations.{Direction, Migration}
use rwf.Orm.Migrations.Store.{Store, Folder, Run, ◌>>◌, pure}
use rwf.Orm.Migrations.Apply.{skips, is_version, migrate_one, loop}

-- The migrations up to and including the first of the version, or all where none has it
abbrev pub up_to : Option ℤ → List Migration → List Migration
up_to version [] = []
up_to version (m ∷ ms) =
    let rest = up_to version ms in m ∷ (if is_version version m then [] else rest)

abbrev pub pending : Direction → List Migration → List Migration
pending d [] = []
pending d (m ∷ ms) = let rest = pending d ms in if skips d m then rest else m ∷ rest

abbrev pub chosen : Direction → Option ℤ → List Migration → List Migration
chosen d version ms = pending d (up_to version ms)

module _ (store : Store) (folder : Folder) (p : Printers) (log_queries : Bool)
    (now : store.Tx → Text) where
  open store use {State, Tx, begin, commit}

  abbrev pub one : Direction → Migration → Run State (Unit {0})
  one = migrate_one store folder p log_queries now

  abbrev pub looped : Direction → Option ℤ → Bool → List Migration → Run State (Unit {0})
  looped = loop store folder p log_queries now

  abbrev pub apply_each : Direction → List Migration → Run State (Unit {0})
  apply_each d [] = pure (ok tt)
  apply_each d (m ∷ ms) = one d m >> apply_each d ms

  stopped : (d : Direction) (v : Option ℤ) (ms : List Migration) → looped d v true ms ≡ pure (ok tt)
  unfolding loop
  stopped d v [] = refl
  stopped d v (m ∷ ms) = refl

  later_lem :
      (d : Direction) (v : Option ℤ) (m : Migration) (ms : List Migration)
      → looped d v false ms ≡ apply_each d (chosen d v ms)
      → looped d v (is_version v m) ms
        ≡ apply_each d (pending d (if is_version v m then [] else up_to v ms))
  later_lem d v m ms ih = elim (Bool-cases (is_version v m)) [
    | inl e ↦ rw e (stopped d v ms)
    | inr e ↦ rw e ih
  ]

  -- The loop of `apply` does what applying one by one, in their order, the migrations that are not
  -- skipped does, of those up to and including the first of the version, or of all where none has
  -- it.
  pub loop-chosen :
      (d : Direction) (v : Option ℤ) (ms : List Migration)
      → looped d v false ms ≡ apply_each d (chosen d v ms)
  unfolding loop
  loop-chosen d v [] = refl
  loop-chosen d v (m ∷ ms) =
      let later = later_lem d v m ms (loop-chosen d v ms) in
      elim (Bool-cases (skips d m)) [ inl e ↦ rw e later | inr e ↦ rw (e, later) refl ]
