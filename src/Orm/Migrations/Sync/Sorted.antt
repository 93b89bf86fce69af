-- ===== src/Orm/Migrations/Sync/Sorted.antt =====
-- The order of the migrations that `sync` gives.
use rwf.Prelude.{List, [], ◌∷◌, Bool, true, false, Bool-cases, ◌≡◌, subst, inl, inr, arith}
use rwf.Prelude.Int.{ltb_ℤ}
use rwf.Prelude.Text.{Text}
use rwf.Prelude.Outcome.{Outcome, ok, err, panic, out_of_fuel}
use rwf.Orm.Value.{Printers}
use rwf.Orm.Query.Execute.{Error}
use rwf.Orm.Migrations.{Migration, FileNames}
use rwf.Orm.Migrations.Store.{Store, Folder, root_path, ◌>>=◌, ◌>>◌, pure, then-ok}
use rwf.Orm.Migrations.Sync.{
  Checks, found, synced, run_bootstrap, each_check, committed, insert_by, sort_by_version, sync,
}

-- No version is followed by a smaller one.
abbrev pub IsSorted : List Migration → Type 0
IsSorted [] = Unit
IsSorted (m ∷ []) = Unit
IsSorted (m ∷ n ∷ ms) = (ltb_ℤ n.version m.version ≡ false) × IsSorted (n ∷ ms)

insert_by-behind :
    (m x : Migration) (xs : List Migration)
    → ltb_ℤ x.version m.version ≡ true
    → IsSorted (x ∷ xs)
    → IsSorted (x ∷ insert_by m xs)
insert_by-behind m x [] h s = (ground arith, tt)
insert_by-behind m x (y ∷ ys) h (k, s) = elim (Bool-cases (ltb_ℤ y.version m.version)) [
  | inl e ↦ rw e (k, insert_by-behind m y ys e s)
  | inr e ↦ rw e (ground arith, (e, s))
]

insert_by-IsSorted : (m : Migration) (xs : List Migration) → IsSorted xs → IsSorted (insert_by m xs)
insert_by-IsSorted m [] s = tt
insert_by-IsSorted m (x ∷ xs) s = elim (Bool-cases (ltb_ℤ x.version m.version)) [
  | inl e ↦ rw e (insert_by-behind m x xs e s)
  | inr e ↦ rw e (e, s)
]

sort_by_version-IsSorted : (ms : List Migration) → IsSorted (sort_by_version ms)
sort_by_version-IsSorted [] = tt
sort_by_version-IsSorted (m ∷ ms) =
    insert_by-IsSorted m (sort_by_version ms) (sort_by_version-IsSorted ms)

module _ (store : Store) (folder : Folder) (p : Printers) (log_queries : Bool) (f : FileNames)
    (iterate : Checks → Checks) (bootstrap : List Text) where
  open store use {State, Tx, begin, commit}

  committed-IsSorted :
      (y : Outcome Error (List Migration) × Tx) (s : State) (out : List Migration)
      → (committed store folder p log_queries f iterate bootstrap y s).0 ≡ ok out
      → IsSorted out
  committed-IsSorted (ok ms, t) s out e =
      let (u, done, h) = then-ok (commit t) (λ u. pure (ok (sort_by_version ms))) s out e in
      subst IsSorted (cc) (sort_by_version-IsSorted ms)
  committed-IsSorted (err g, t) s out e = cc
  committed-IsSorted (panic, t) s out e = cc
  committed-IsSorted (out_of_fuel, t) s out e = cc

  synced-IsSorted :
      (checks : Checks) (t : Tx) (s : State) (out : List Migration)
      → (synced store folder p log_queries f iterate bootstrap checks t s).0 ≡ ok out
      → IsSorted out
  unfolding synced
  synced-IsSorted checks t s out e =
      let work =
        run_bootstrap store folder p log_queries f iterate bootstrap bootstrap
        >> each_check store folder p log_queries f iterate bootstrap (iterate checks) [] in
      committed-IsSorted (work t) s out e

  pub sync-IsSorted :
      (s : State) (out : List Migration)
      → (sync store folder p log_queries f iterate bootstrap s).0 ≡ ok out
      → IsSorted out
  unfolding sync
  sync-IsSorted s out e =
      let run = synced store folder p log_queries f iterate bootstrap in
      let files = found store folder p log_queries f iterate bootstrap (root_path folder) in
      let (checks, h, k) = then-ok (pure files) (λ cs. begin >>= run cs) s out e in
      let (t, begun, l) = then-ok begin (run checks) s out k in
      synced-IsSorted checks t (begin s).1 out l
