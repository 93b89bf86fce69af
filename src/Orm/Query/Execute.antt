-- ===== src/Orm/Query/Execute.antt =====
-- What `Query` of rwf/src/model/mod.rs sends to the database. The connection and the statements on it
-- are parameters, and so are the conversions of rows.
pub mod Creation
use rwf.Prelude.{Option, none, some, List, [], ◌∷◌, Bool, if◌then◌else◌}
use rwf.Prelude.Int.{ℤ, pos, ltb_ℤ}
use rwf.Prelude.Text.{Text}
use rwf.Prelude.Outcome.{Outcome, ok, err, panic, out_of_fuel}
use rwf.Orm.Value.{Value, Printers}
use rwf.Orm.Select
use rwf.Orm.Select.{Select, select_sql}
use rwf.Orm.Write.{update_sql, insert_sql}
use rwf.Orm.Query.{
  Query, select, update, insert, insert_if_not_exists, raw, picked, on_select, to_sql,
}

-- `RecordNotFound`, and the errors of the pool, the database and the conversions
pub data Error : Type 0 where
  record_not_found : Error
  other : Text → Error

-- The database, as the statements that are sent see it
pub record Database : Type 1 where
  pub State : Type 0
  pub Row : Type 0
  pub connect : State → Outcome Error (Unit {0}) × State
  pub query_cached : Text → List Value → State → Outcome Error (List Row) × State

module _ (db : Database) (p : Printers) where
  open db use {State, Row, connect, query_cached}

  abbrev M : Type 0 → Type 0
  M A = State → Outcome Error A × State

  abbrev pub bound_to :
      {A B : Type 0} → (A → M B) → Outcome Error A × State → Outcome Error B × State
  bound_to f (ok a, s) = f a s
  bound_to f (err e, s) = (err e, s)
  bound_to f (panic, s) = (panic, s)
  bound_to f (out_of_fuel, s) = (out_of_fuel, s)

  infixl 5 ◌>>=◌ ◌>>◌
  abbrev ◌>>=◌ : {A B : Type 0} → M A → (A → M B) → M B
  a >>= f = λ s. bound_to f (a s)

  abbrev ◌>>◌ : {B : Type 0} → M (Unit {0}) → M B → M B
  a >> b = a >>= λ _. b

  abbrev pure : {A : Type 0} → Outcome Error A → M A
  pure a = λ s. (a, s)

  -- A statement whose text panics is not sent.
  abbrev send : Option Text → List Value → M (List Row)
  send none values = pure panic
  send (some text) values = query_cached text values

  -- `log_error` and `log` print the text of the whole query.
  abbrev pub printed : {A : Type 0} → Option Text → Outcome Error A → Outcome Error A
  printed none r = panic
  printed (some text) r = r

  abbrev logged : {A : Type 0} → Query → Outcome Error A → M A
  logged q (ok a) = pure (ok a)
  logged q (err e) = pure (printed (to_sql p q) (err e))
  logged q r = pure r

  abbrev pub rows_or : M (List Row) → List Row → M (List Row)
  rows_or later [] = later
  rows_or later (row ∷ rows) = pure (ok (row ∷ rows))

  abbrev statement : Query → M (List Row)
  statement (select s) = send (select_sql p s) s.placeholders
  statement (raw text values) = query_cached text values
  statement (update u) = send (update_sql p u) u.placeholders
  statement (insert i) = send (insert_sql p i) i.placeholders
  statement (insert_if_not_exists s i created) =
      send (select_sql p s) s.placeholders >>= rows_or (send (insert_sql p i) i.placeholders)
  statement (picked s) = send (select_sql p s) s.placeholders

  abbrev pub log_failure :
      Query → Outcome Error (List Row) × State → Outcome Error (List Row) × State
  log_failure q (r, s) = logged q r s

  unfoldable pub execute_internal : Query → M (List Row)
  unfolding select_sql update_sql insert_sql to_sql
  execute_internal q = do connect; λ s. log_failure q (statement q s)

  module _ (log_queries : Bool) where
    log : {A : Type 0} → Query → Outcome Error A → Outcome Error A
    unfolding to_sql
    log q r = if log_queries then printed (to_sql p q) r else r

    module _ {A : Type 0} (from_row : Row → Outcome Error A) where
      models : List Row → Outcome Error (List A)
      models [] = ok []
      models (row ∷ rows) =
          let rest = models rows in
          elim (from_row row) [
            | ok a ↦ elim rest [
              | ok as_ ↦ ok (a ∷ as_)
              | err e ↦ err e
              | panic ↦ panic
              | out_of_fuel ↦ out_of_fuel
            ]
            | err e ↦ err e
            | panic ↦ panic
            | out_of_fuel ↦ out_of_fuel
          ]

      -- `execute` and `fetch_all`
      unfoldable pub execute : Query → M (List A)
      unfolding execute_internal models log
      execute q = do
        rows ← execute_internal q
        results ← pure (models rows)
        pure (log q (ok results))

      abbrev first : List A → Outcome Error A
      first [] = err record_not_found
      first (a ∷ more) = ok a

      unfoldable pub fetch : Query → M A
      unfolding execute
      fetch q = do results ← execute q; pure (first results)

      abbrev optional : Outcome Error A → Outcome Error (Option A)
      optional (ok a) = ok (some a)
      optional (err record_not_found) = ok none
      optional (err (other t)) = err (other t)
      optional panic = panic
      optional out_of_fuel = out_of_fuel

      abbrev optional_of : Outcome Error A × State → Outcome Error (Option A) × State
      optional_of (r, s) = (optional r, s)

      unfoldable fetch_optional : Query → M (Option A)
      unfolding fetch
      fetch_optional q = λ s. optional_of (fetch q s)

    -- `Vec::pop`
    abbrev last_row : List Row → Option Row
    last_row [] = none
    last_row (row ∷ []) = some row
    last_row (row ∷ next ∷ rows) = last_row (next ∷ rows)

    module _ (count_of : Row → Outcome Error ℤ) where
      abbrev counted : Option Row → Outcome Error ℤ
      counted none = ok (pos 0)
      counted (some row) = count_of row

      abbrev log_count : Query → Outcome Error ℤ → Outcome Error ℤ
      log_count q (ok n) = log q (ok n)
      log_count q r = r

      count : Query → M ℤ
      unfolding execute_internal log
      count q =
          let q' = on_select (λ s. select (Select.with_exists s)) q in
          do rows ← execute_internal q'; pure (log_count q' (counted (last_row rows)))

      unfoldable exists : Query → M Bool
      unfolding count
      exists q = do n ← count q; pure (ok (ltb_ℤ (pos 0) n))
