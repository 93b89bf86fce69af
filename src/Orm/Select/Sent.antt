-- ===== src/Orm/Select/Sent.antt =====
-- What a value that is sent with a statement is matched by.
use rwf.Prelude.{ℕ, ◌+◌, List, [], ◌∷◌, ◌++◌, Bool, true, false, length, ◌≡◌, refl}
use rwf.Orm.Value.{Value, Column, placeholder, absent, present, is_null}
use rwf.Orm.Filter.{Comparison, and_, clauses_of, nil, cons, equal, in_, empty, add, push, extend}
use rwf.Orm.Select.{bind_value, bound}

-- A value that is sent with the statement, and not written in its text
abbrev pub is_sent : Value → Bool
is_sent Value.null = false
is_sent (Value.optional absent) = false
is_sent (Value.column c) = false
is_sent (Value.function name args) = false
is_sent _ = true

-- The comparison of a column with the value of a number, with a list by IN
abbrev pub matched : Column → Value → ℕ → Comparison
matched c (Value.list vs) n = in_ c (placeholder n)
matched c _ n = equal c (placeholder n)

-- The comparison that is added, and the values then
pub comparison_lem :
    (c : Column) (v : Value) (ps : List Value)
    → is_sent v ≡ true
    → (add c (bind_value v ps).0 empty ≡ clauses_of (cons (matched c v (length ps + 1)) nil) and_)
      × ((bind_value v ps).1 ≡ ps ++ v ∷ [])
unfolding bind_value bound is_null add push extend
comparison_lem c (Value.list vs) ps h = (refl, refl)
comparison_lem c Value.null ps h = absurd (cc)
comparison_lem c (Value.optional absent) ps h = absurd (cc)
comparison_lem c (Value.optional (present v)) ps h = (refl, refl)
comparison_lem c (Value.column d) ps h = absurd (cc)
comparison_lem c (Value.function name args) ps h = absurd (cc)
comparison_lem c v ps h = (refl, refl)
