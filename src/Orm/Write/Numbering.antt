-- ===== src/Orm/Write/Numbering.antt =====
-- The placeholders of `Update` and `Insert`.
use rwf.Prelude.{
  ℕ, zero, suc, ◌+◌, List, [], ◌∷◌, ◌++◌, map, ◌≡◌, ◌∙◌, refl, ap, arith, length, length-append,
}
use rwf.Prelude.Text.{Text}
use rwf.Orm.Value.{Value, Column, unqualify}
use rwf.Orm.Filter
use rwf.Orm.Filter.{add, push, extend}
use rwf.Orm.Filter.Numbering.{ids, placeholders-length-ids}
use rwf.Orm.Select.{Select}
use rwf.Orm.Select.Numbering.{numbers, numbers-from, IsNumbered}
use rwf.Orm.Write.{
  Update, set_columns, update_columns, update_selected, numbered, sets, add_all, insert_columns,
}

length-numbers : (first n : ℕ) → length (numbers first n) ≡ n
unfolding numbers
length-numbers first zero = refl
length-numbers first (suc n) = ap (λ k. suc k) (length-numbers (first + 1) n)

numbered-numbers :
    (first : ℕ) (cs : List Column) → map (λ s. s.1) (numbered first cs) ≡ numbers first (length cs)
unfolding numbered numbers
numbered-numbers first [] = refl
numbered-numbers first (c ∷ cs) = ap (λ (l : List ℕ). first ∷ l) (numbered-numbers (first + 1) cs)

-- The filter takes the first numbers, and each column set has one of the values behind.
record IsBalanced (u : Update) : Type 0 where
  filtered : ℕ
  where_ids : ids u.where_clause ≡ numbers 1 filtered
  bound : length u.placeholders ≡ filtered + length u.columns

set_columns-IsBalanced :
    (cs : List Column) (vs : List Value) (u : Update)
    → IsBalanced u
    → IsBalanced (set_columns cs vs u)
unfolding set_columns
set_columns-IsBalanced [] vs u b = b
set_columns-IsBalanced (c ∷ cs) [] u b = b
set_columns-IsBalanced (c ∷ cs) (v ∷ vs) u b = set_columns-IsBalanced cs vs _ (record {
  filtered = b.filtered;
  where_ids = b.where_ids;
  bound =
      omega
        (arith, b.bound, length-append u.placeholders (v ∷ []), length-append u.columns (c ∷ []));
})

IsBalanced-sets :
    (u : Update)
    → IsBalanced u
    → ids u.where_clause ++ map (λ s. s.1) (sets u) ≡ numbers 1 (length u.placeholders)
unfolding sets
IsBalanced-sets u b =
    let lengths : length (ids u.where_clause) ≡ b.filtered =
      ap length b.where_ids ∙ length-numbers 1 b.filtered in
    let count : Filter.placeholders u.where_clause ≡ b.filtered =
      placeholders-length-ids u.where_clause ∙ lengths in
    rw b.bound (
      numbers-from (ids u.where_clause) _ b.filtered (length u.columns) b.where_ids
        (rw count (numbered-numbers (b.filtered + 1) u.columns)))

-- The placeholders of an update of columns by the key are numbered 1, 2, …, first that of the key
-- and then those of the columns, one for each bound value.
update_columns-numbers :
    (table key : Text) (id : Value) (cs : List Column) (vs : List Value)
    → ids (update_columns table key id cs vs).where_clause
        ++ map (λ s. s.1) (sets (update_columns table key id cs vs))
      ≡ numbers 1 (length (update_columns table key id cs vs).placeholders)
unfolding update_columns
update_columns-numbers table key id cs vs = IsBalanced-sets (update_columns table key id cs vs) (
    set_columns-IsBalanced cs vs _ (record {
      filtered = 1;
      where_ids = unfold add push extend ids numbers in refl;
      bound = refl;
    }))

-- An update made of a query whose placeholders are numbered in order has its placeholders numbered
-- 1, 2, …, first those of the filter and then those of the columns, one for each bound value.
pub update_selected-numbers :
    (table key : Text) (s : Select) (cs : List Column) (vs : List Value)
    → IsNumbered s
    → ids (set_columns cs vs (update_selected table key s)).where_clause
        ++ map (λ s. s.1) (sets (set_columns cs vs (update_selected table key s)))
      ≡ numbers 1 (length (set_columns cs vs (update_selected table key s)).placeholders)
update_selected-numbers table key s cs vs n =
    IsBalanced-sets (set_columns cs vs (update_selected table key s)) (
      set_columns-IsBalanced cs vs _
        (record { filtered = length s.placeholders; where_ids = n; bound = omega arith }))

length-add_all : (vs ps : List Value) → length (add_all vs ps) ≡ length ps + length vs
unfolding add_all
length-add_all [] ps = omega arith
length-add_all (v ∷ vs) ps =
    omega (arith, length-add_all vs (ps ++ v ∷ []), length-append ps (v ∷ []))

length-unqualified : (cs : List Column) → length (map unqualify cs) ≡ length cs
length-unqualified [] = refl
length-unqualified (c ∷ cs) = ap (λ n. suc n) (length-unqualified cs)

-- The placeholders of an insert of as many values as columns are numbered 1, 2, …, one for each
-- bound value.
pub insert_columns-numbers :
    (table : Text) (cs : List Column) (vs : List Value)
    → length cs ≡ length vs
    → map (λ s. s.1) (numbered 1 (insert_columns table cs vs).columns)
      ≡ numbers 1 (length (insert_columns table cs vs).placeholders)
unfolding insert_columns
insert_columns-numbers table cs vs e =
    let bound : length (add_all vs []) ≡ length cs = omega (arith, length-add_all vs []) in
    rw (bound, numbered-numbers 1 (map unqualify cs)) (ap (numbers 1) (length-unqualified cs))
