-- ===== src/Orm/Select/Inserts.antt =====
-- The values that `Select::insert_columns` finds for the placeholders of its filter.
use rwf.Prelude.{
  ℕ, zero, suc, ◌+◌, ◌≤◌, ◌<◌, some, List, [], ◌∷◌, ◌++◌, ◌≡◌, refl, arith, All, All-append, length,
}
use rwf.Orm.Value.{Value, Column, placeholder}
use rwf.Orm.Filter
use rwf.Orm.Filter.{
  Filter, Comparison, Comparisons, clauses_of, nil, cons, equal, filter, insert_all, insert_one,
}
use rwf.Orm.Filter.Numbering.{id, ids, ids_all, ids_one}
use rwf.Orm.Select.{Select, value_at, resolve, resolve_all, insert_columns}
use rwf.Orm.Select.Numbering.{numbers, IsNumbered}

-- The number of one of so many values
abbrev Numbers : ℕ → ℕ → Type 0
Numbers len n = (0 < n) × (n ≤ len)

abbrev Resolves : ℕ → Column × Value → Type 0
Resolves len s = All (Numbers len) (id s.1)

numbers-Numbers :
    (first n len : ℕ) → 0 < first → first + n ≤ len + 1 → All (Numbers len) (numbers first n)
unfolding numbers
numbers-Numbers first zero len h le = tt
numbers-Numbers first (suc n) len h le =
    ((h, omega arith), numbers-Numbers (first + 1) n len (omega arith) (omega arith))

All-split : (P : ℕ → Type 0) (xs ys : List ℕ) → All P (xs ++ ys) → All P xs × All P ys
All-split P [] ys h = (tt, h)
All-split P (x ∷ xs) ys (p, h) = let (a, b) = All-split P xs ys h in ((p, a), b)

module _ (len : ℕ) where
  mutual
    unfolding ids Filter.insert_columns

    of_filter :
        (f : Filter) → All (Numbers len) (ids f) → All (Resolves len) (Filter.insert_columns f)
    of_filter (clauses_of cs op) h = of_comparisons cs h

    of_comparisons :
        (cs : Comparisons) → All (Numbers len) (ids_all cs) → All (Resolves len) (insert_all cs)
    of_comparisons nil h = tt
    of_comparisons (cons c cs) h =
        let (a, b) = All-split (Numbers len) (ids_one c) (ids_all cs) h in
        All-append (Resolves len) (insert_one c) (insert_all cs) (of_comparison c a)
          (of_comparisons cs b)

    of_comparison :
        (c : Comparison) → All (Numbers len) (ids_one c) → All (Resolves len) (insert_one c)
    of_comparison (equal c v) h = (h, tt)
    of_comparison (filter f) h = of_filter f h
    of_comparison _ h = tt

value_at-Numbers :
    (ps : List Value) (n : ℕ) → Numbers (length ps) n → (v : Value) × (value_at ps n ≡ some v)
unfolding value_at
value_at-Numbers ps zero (h, le) = absurd (omega arith)
value_at-Numbers [] (suc n) (h, le) = absurd (omega arith)
value_at-Numbers (p ∷ ps) (suc zero) (h, le) = (p, refl)
value_at-Numbers (p ∷ ps) (suc (suc n)) (h, le) =
    value_at-Numbers ps (suc n) (omega arith, omega arith)

resolve-Resolves :
    (ps : List Value) (c : Column) (v : Value)
    → Resolves (length ps) (c, v)
    → (w : Value) × (resolve ps v ≡ some w)
unfolding resolve
resolve-Resolves ps c (placeholder n) (h, _) = value_at-Numbers ps n h
resolve-Resolves ps c v h = (v, refl)

resolve_all-Resolves :
    (ps : List Value) (cs : List (Column × Value))
    → All (Resolves (length ps)) cs
    → (r : List (Column × Value)) × (resolve_all ps cs ≡ some r)
unfolding resolve_all
resolve_all-Resolves ps [] h = ([], refl)
resolve_all-Resolves ps ((c, v) ∷ cs) (h, hs) =
    let (w, e) = resolve-Resolves ps c v h in
    let (ws, es) = resolve_all-Resolves ps cs hs in ((c, w) ∷ ws, rw (e, es) refl)

-- Where the placeholders of a query are numbered in order, `insert_columns` finds the value of each
-- and does not panic.
insert_columns-IsNumbered :
    (s : Select) → IsNumbered s → (r : List (Column × Value)) × (insert_columns s ≡ some r)
unfolding insert_columns
insert_columns-IsNumbered s n =
    resolve_all-Resolves s.placeholders (Filter.insert_columns s.where_clause) (
      of_filter (length s.placeholders) s.where_clause (
        rw n (
          numbers-Numbers 1 (length s.placeholders) (length s.placeholders) (omega arith)
            (omega arith))))
