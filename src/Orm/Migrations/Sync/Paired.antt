-- ===== src/Orm/Migrations/Sync/Paired.antt =====
-- The two files of each migration.
use rwf.Prelude.{
  List, [], ◌∷◌, ◌++◌, Bool, true, false, Bool-cases, All, ◌≡◌, refl, sym, ap, ◌∙◌, ◌⊎◌, inl, inr,
  arith,
}
use rwf.Prelude.Text.{Text, text_eq}
use rwf.Prelude.Outcome.{Outcome, ok, err, panic, out_of_fuel}
use rwf.Orm.Value.{Printers}
use rwf.Orm.Query.Execute.{Error}
use rwf.Orm.Migrations.{Migration, MigrationFile, FileNames, Check, default, valid, version_of}
use rwf.Orm.Migrations.Store.{Store, Folder, root_path, Run, ◌>>=◌, ◌>>◌, pure, then-ok}
use rwf.Orm.Migrations.Sync.{
  Checks, collect, found, gathered, run_bootstrap, find_or_create, checked, each_check, committed,
  synced, sync,
}
use rwf.Orm.Migrations.Sync.Collected.{get, files_up, files_down, Has, files_of, collected}

-- A name has no files, or one in each direction, of one version.
abbrev pub Paired : Text → List MigrationFile → Type 0
Paired n files =
    ((files_up n files ≡ []) × (files_down n files ≡ []))
    ⊎ ((u : MigrationFile) × (d : MigrationFile) × (files_up n files ≡ u ∷ [])
        × (files_down n files ≡ d ∷ [])
        × (u.version ≡ d.version))

-- A list of a file up and one of a file down
valid-lists :
    (c : Check) (us ds : List MigrationFile)
    → c.ups ≡ us
    → c.downs ≡ ds
    → valid c ≡ true
    → (u : MigrationFile) × (d : MigrationFile) × (us ≡ u ∷ [])
      × (ds ≡ d ∷ [])
      × (u.version ≡ d.version)
unfolding valid
valid-lists c [] ds e k h = ground (arith, e, k, h)
valid-lists c (u ∷ v ∷ us) ds e k h = ground (arith, e, k, h)
valid-lists c (u ∷ []) [] e k h = ground (arith, e, k, h)
valid-lists c (u ∷ []) (d ∷ []) e k h = (u, d, refl, refl, ground (arith, e, k, h))
valid-lists c (u ∷ []) (d ∷ g ∷ ds) e k h = ground (arith, e, k, h)

abbrev IsValid : Text × Check → Type 0
IsValid (n, c) = valid c ≡ true

get-valid :
    (n : Text) (cs : Checks) → All IsValid cs → (get n cs ≡ default) ⊎ (valid (get n cs) ≡ true)
get-valid n [] h = inl refl
get-valid n ((m, c) ∷ cs) (h, hs) = elim (Bool-cases (text_eq m n)) [
  | inl t ↦ inr (rw t h)
  | inr t ↦ rw t (get-valid n cs hs)
]

-- Of files that are collected from the start, and whose checks are all valid
pairs-Paired :
    (n : Text) (files : List MigrationFile) (c : Check)
    → Has n default c files
    → (c ≡ default) ⊎ (valid c ≡ true)
    → Paired n files
pairs-Paired n files c (h, k) (inl e) = inl (sym h ∙ ap (λ x. x.ups) e, sym k ∙ ap (λ x. x.downs) e)
pairs-Paired n files c (h, k) (inr v) = inr (valid-lists c _ _ h k v)

module _ (store : Store) (folder : Folder) (p : Printers) (log_queries : Bool) (f : FileNames)
    (iterate : Checks → Checks) (bootstrap : List Text) where
  open store use {State, Tx, begin}

  abbrev each : Checks → List Migration → Tx → Outcome Error (List Migration) × Tx
  each = each_check store folder p log_queries f iterate bootstrap

  checked-ok :
      (b : Bool) (next : Run Tx (List Migration)) (t : Tx) (out : List Migration)
      → (checked store folder p log_queries f iterate bootstrap b next t).0 ≡ ok out
      → (b ≡ true) × ((next t).0 ≡ ok out)
  checked-ok true next t out e = (refl, e)
  checked-ok false next t out e = cc

  each_check-IsValid :
      (checks : Checks) (ms out : List Migration) (t : Tx)
      → (each checks ms t).0 ≡ ok out
      → All IsValid checks
  unfolding each_check
  each_check-IsValid [] ms out t e = tt
  each_check-IsValid ((n, c) ∷ checks) ms out t e =
      let (v, h) = checked-ok (valid c) _ t out e in
      let first =
        find_or_create store folder p log_queries f iterate bootstrap n (version_of c.ups) in
      let (m, found, k) = then-ok first (λ m. each checks (ms ++ m ∷ [])) t out h in
      (v, each_check-IsValid checks (ms ++ m ∷ []) out (first t).1 k)

  committed-ok :
      (y : Outcome Error (List Migration) × Tx) (s : State) (out : List Migration)
      → (committed store folder p log_queries f iterate bootstrap y s).0 ≡ ok out
      → (ms : List Migration) × (y.0 ≡ ok ms)
  committed-ok (ok ms, t) s out e = (ms, refl)
  committed-ok (err g, t) s out e = cc
  committed-ok (panic, t) s out e = cc
  committed-ok (out_of_fuel, t) s out e = cc

  synced-IsValid :
      (checks : Checks) (t : Tx) (s : State) (out : List Migration)
      → (synced store folder p log_queries f iterate bootstrap checks t s).0 ≡ ok out
      → All IsValid (iterate checks)
  unfolding run_bootstrap synced
  synced-IsValid checks t s out e =
      let work =
        run_bootstrap store folder p log_queries f iterate bootstrap bootstrap
        >> each (iterate checks) [] in
      let (ms, h) = committed-ok (work t) s out e in
      let first = run_bootstrap store folder p log_queries f iterate bootstrap bootstrap in
      let (u, ran, k) = then-ok first (λ u. each (iterate checks) []) t ms h in
      each_check-IsValid (iterate checks) [] ms (first t).1 k

  found_lem :
      (root : Text) (entries : List (Text × Bool))
      → root_path folder ≡ ok root
      → folder.read_dir root ≡ ok entries
      → found store folder p log_queries f iterate bootstrap (root_path folder)
        ≡ collect f entries []
  unfolding gathered
  found_lem root entries h dir = rw (h, dir) refl

  sync-collect :
      (root : Text) (entries : List (Text × Bool)) (s : State) (out : List Migration)
      → root_path folder ≡ ok root
      → folder.read_dir root ≡ ok entries
      → (sync store folder p log_queries f iterate bootstrap s).0 ≡ ok out
      → (checks : Checks) × (collect f entries [] ≡ ok checks) × All IsValid (iterate checks)
  unfolding sync
  sync-collect root entries s out r dir e =
      let run = synced store folder p log_queries f iterate bootstrap in
      let files = found store folder p log_queries f iterate bootstrap (root_path folder) in
      let (checks, h, k) = then-ok (pure files) (λ cs. begin >>= run cs) s out e in
      let (t, begun, l) = then-ok begin (run checks) s out k in
      (checks, sym (found_lem root entries r dir) ∙ h, synced-IsValid checks t (begin s).1 out l)

  module _
      (visits : (P : Text × Check → Type 0) (cs : Checks) → All P (iterate cs) → All P cs) where
    -- Where the iteration over a map visits every entry: after a `sync` that succeeds on a folder
    -- that can be read, each name has no migration file, or one file up and one down, of one
    -- version.
    pub sync-Paired :
        (root : Text) (entries : List (Text × Bool)) (s : State) (out : List Migration) (n : Text)
        → root_path folder ≡ ok root
        → folder.read_dir root ≡ ok entries
        → (sync store folder p log_queries f iterate bootstrap s).0 ≡ ok out
        → Paired n (files_of f entries)
    sync-Paired root entries s out n r dir e =
        let (checks, h, valids) = sync-collect root entries s out r dir e in
        pairs-Paired n (files_of f entries) (get n checks) (collected f entries [] checks n h)
          (get-valid n checks (visits IsValid checks valids))
