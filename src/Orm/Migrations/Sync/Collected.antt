-- ===== src/Orm/Migrations/Sync/Collected.antt =====
-- What the files of the folder are collected to.
use rwf.Prelude.{
  List, [], ◌∷◌, ◌++◌, Bool, true, false, ◌&&◌, if◌then◌else◌, Bool-cases, ◌≡◌, refl, sym, ap,
  subst, ◌∙◌, inl, inr, append-nil, append_assoc, arith,
}
use rwf.Prelude.Text.{Text, text_eq, text_eq→eq, text_eq_refl}
use rwf.Prelude.Outcome.{Outcome, ok, err, panic, out_of_fuel}
use rwf.Orm.Query.Execute.{Error}
use rwf.Orm.Migrations.{
  Direction, up, down, MigrationFile, FileNames, Check, parse_file, default, add,
}
use rwf.Orm.Migrations.Sync.{Checks, entry_add, left_out, added, collect}

abbrev pub get : Text → Checks → Check
get n [] = default
get n ((m, c) ∷ cs) = let rest = get n cs in if text_eq m n then c else rest

abbrev is_up : Direction → Bool
is_up up = true
is_up down = false

-- The files of a name and a direction
abbrev pub files_up : Text → List MigrationFile → List MigrationFile
files_up n [] = []
files_up n (f ∷ fs) =
    let rest = files_up n fs in if text_eq f.name n && is_up f.direction then f ∷ rest else rest

abbrev pub files_down : Text → List MigrationFile → List MigrationFile
files_down n [] = []
files_down n (f ∷ fs) =
    let rest = files_down n fs in
    if text_eq f.name n && (if is_up f.direction then false else true) then f ∷ rest else rest

text_eq_trans : (m n k : Text) → text_eq m n ≡ true → text_eq m k ≡ text_eq n k
text_eq_trans m n k e = ap (λ t. text_eq t k) (text_eq→eq m n e)

get-entry_add :
    (file : MigrationFile) (cs : Checks) (n : Text)
    → get n (entry_add file cs) ≡ (if text_eq file.name n then add file (get n cs) else get n cs)
unfolding entry_add
get-entry_add file [] n = refl
get-entry_add file ((m, c) ∷ cs) n = elim (Bool-cases (text_eq m file.name)) [
  | inl e ↦
      rw (e, sym (text_eq_trans m file.name n e))
        (elim (Bool-cases (text_eq m n)) [ inl k ↦ rw k refl | inr k ↦ rw k refl ])
  | inr e ↦ rw e (elim (Bool-cases (text_eq m n)) [
    | inl k ↦ elim (Bool-cases (text_eq file.name n)) [
      | inl l ↦
          let same : m ≡ file.name = text_eq→eq m n k ∙ sym (text_eq→eq file.name n l) in
          let eq : text_eq m file.name ≡ true =
            subst (λ t. text_eq m t ≡ true) same (text_eq_refl m) in
          cc
      | inr l ↦ rw (k, l) refl
    ]
    | inr k ↦ rw k (get-entry_add file cs n)
  ])
]

-- What a check has of the files
abbrev pub Has : Text → Check → Check → List MigrationFile → Type 0
Has n c₀ c fs = (c.ups ≡ c₀.ups ++ files_up n fs) × (c.downs ≡ c₀.downs ++ files_down n fs)

add-lem :
    (file : MigrationFile) (n : Text) (d : Direction) (c₀ c : Check) (fs : List MigrationFile)
    → file.direction ≡ d
    → Has n (if text_eq file.name n then add file c₀ else c₀) c fs
    → Has n c₀ c (file ∷ fs)
unfolding add
add-lem file n up c₀ c fs e (h, k) =
    let joined = append_assoc c₀.ups (file ∷ []) (files_up n fs) in
    elim (Bool-cases (text_eq file.name n)) [
      | inl t ↦ (ground (arith, t, e, h, joined), ground (arith, t, e, k))
      | inr t ↦ (ground (arith, t, e, h), ground (arith, t, e, k))
    ]
add-lem file n down c₀ c fs e (h, k) =
    let joined = append_assoc c₀.downs (file ∷ []) (files_down n fs) in
    elim (Bool-cases (text_eq file.name n)) [
      | inl t ↦ (ground (arith, t, e, h), ground (arith, t, e, k, joined))
      | inr t ↦ (ground (arith, t, e, h), ground (arith, t, e, k))
    ]

module _ (f : FileNames) where
  abbrev also : Outcome Error MigrationFile → List MigrationFile → List MigrationFile
  also (ok file) rest = file ∷ rest
  also _ rest = rest

  -- The migration files among the entries of the folder
  abbrev pub files_of : List (Text × Bool) → List MigrationFile
  files_of [] = []
  files_of ((name, is_file) ∷ entries) =
      let rest = files_of entries in
      if left_out name is_file then rest else also (parse_file f name) rest

  collect-left_out :
      (name : Text) (is_file : Bool) (entries : List (Text × Bool)) (cs : Checks)
      → left_out name is_file ≡ true
      → collect f ((name, is_file) ∷ entries) cs ≡ collect f entries cs
  unfolding collect
  collect-left_out name is_file entries cs t = rw t refl

  collect-added :
      (name : Text) (is_file : Bool) (entries : List (Text × Bool)) (cs : Checks)
      → left_out name is_file ≡ false
      → collect f ((name, is_file) ∷ entries) cs
        ≡ added f (parse_file f name) cs (collect f entries)
  unfolding collect
  collect-added name is_file entries cs t = rw t refl

  -- A file that is read, then the others
  added_lem :
      (r : Outcome Error MigrationFile) (k : Checks → Outcome Error Checks) (cs checks : Checks)
      (n : Text) (fs : List MigrationFile)
      → ((cs' : Checks) → k cs' ≡ ok checks → Has n (get n cs') (get n checks) fs)
      → added f r cs k ≡ ok checks
      → Has n (get n cs) (get n checks) (also r fs)
  added_lem (ok file) k cs checks n fs ih e =
      add-lem file n file.direction (get n cs) (get n checks) fs refl (
        subst (λ c. Has n c (get n checks) fs) (get-entry_add file cs n) (ih (entry_add file cs) e))
  added_lem (err g) k cs checks n fs ih e = cc
  added_lem panic k cs checks n fs ih e = cc
  added_lem out_of_fuel k cs checks n fs ih e = cc

  same_lem : (cs checks : Checks) (n : Text) → cs ≡ checks → Has n (get n cs) (get n checks) []
  same_lem cs checks n e = (
    sym (ap (λ l. (get n l).ups) e) ∙ sym (append-nil (get n cs).ups),
    sym (ap (λ l. (get n l).downs) e) ∙ sym (append-nil (get n cs).downs),
  )

  pub collected :
      (entries : List (Text × Bool)) (cs checks : Checks) (n : Text)
      → collect f entries cs ≡ ok checks
      → Has n (get n cs) (get n checks) (files_of entries)
  collected [] cs checks n e = same_lem cs checks n (unfold collect in (cc))
  collected ((name, is_file) ∷ entries) cs checks n e = elim (Bool-cases (left_out name is_file)) [
    | inl t ↦
        rw t (collected entries cs checks n (sym (collect-left_out name is_file entries cs t) ∙ e))
    | inr t ↦ rw t (
        added_lem (parse_file f name) (collect f entries) cs checks n (files_of entries)
          (λ cs' h. collected entries cs' checks n h)
          (sym (collect-added name is_file entries cs t) ∙ e))
  ]
