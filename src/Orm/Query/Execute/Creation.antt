-- ===== src/Orm/Query/Execute/Creation.antt =====
-- A record that is looked for and created where it is missing.
use rwf.Prelude.{
  Option, none, Bool, ap, subst, ◌≢◌, List, [], ◌∷◌, some, ◌⊎◌, inl, inr, ◌≡◌, refl, sym, ◌∙◌,
}
use rwf.Prelude.Text.{Text}
use rwf.Prelude.Outcome.{Outcome, ok, err, panic, out_of_fuel}
use rwf.Orm.Value.{Printers}
use rwf.Orm.Select.{Select, select_sql}
use rwf.Orm.Write.{Insert, insert_sql}
use rwf.Orm.Query.{Query, insert_if_not_exists, to_sql}
use rwf.Orm.Query.Execute.{
  Error, Database, execute_internal, bound_to, rows_or, printed, log_failure,
}

module _ (db : Database) (p : Printers) where
  open db use {State, Row, connect, query_cached}

  printed-ok : {A : Type 0} (o : Option Text) (e : Error) (a : A) → printed db p o (err e) ≢ ok a
  printed-ok none e a = cc
  printed-ok (some t) e a = cc

  -- An error that is logged stays one.
  log_failure-ok :
      (q : Query) (reply : Outcome Error (List Row) × State) (rows : List Row) (t : State)
      → log_failure db p q reply ≡ (ok rows, t)
      → reply ≡ (ok rows, t)
  log_failure-ok q (ok found, u) rows t e = e
  log_failure-ok q (err f, u) rows t e = absurd (printed-ok (to_sql p q) f rows (ap (λ r. r.0) e))
  log_failure-ok q (panic, u) rows t e = cc
  log_failure-ok q (out_of_fuel, u) rows t e = cc

  module _ (s : Select) (i : Insert) (created : Bool) {find make : Text}
      (find_sql : select_sql p s ≡ some find) (make_sql : insert_sql p i ≡ some make)
      (connects : (t : State) → connect t ≡ (ok tt, t))
      (reads : (t : State) → (query_cached find s.placeholders t).1 ≡ t) where
    abbrev query : Query
    query = insert_if_not_exists s i created

    abbrev replied : Outcome Error (List Row) × State → Outcome Error (List Row) × State
    replied = bound_to db p (rows_or db p (query_cached make i.placeholders))

    run_lem :
        (t : State)
        → execute_internal db p query t
          ≡ log_failure db p query (replied (query_cached find s.placeholders t))
    unfolding execute_internal
    run_lem t = rw (connects t, find_sql, make_sql) refl

    found_again :
        (t : State) (row : Row) (rows : List Row)
        → query_cached find s.placeholders t ≡ (ok (row ∷ rows), t)
        → execute_internal db p query t ≡ (ok (row ∷ rows), t)
    found_again t row rows e = run_lem t ∙ rw e refl

    -- A run that succeeds found a row and changed nothing, or it inserted one.
    first_run :
        (t t' : State) (rows : List Row) (reply : Outcome Error (List Row) × State)
        → query_cached find s.placeholders t ≡ reply
        → replied reply ≡ (ok rows, t')
        → ((row : Row) × (more : List Row) × (query_cached find s.placeholders t'
              ≡ (ok (row ∷ more), t')))
          ⊎ (query_cached make i.placeholders t ≡ (ok rows, t'))
    first_run t t' rows (ok [], u) e f =
        let same : u ≡ t = sym (ap (λ r. r.1) e) ∙ reads t in inr (rw (sym same) f)
    first_run t t' rows (ok (row ∷ more), u) e f =
        let same : u ≡ t = sym (ap (λ r. r.1) e) ∙ reads t in
        let last : u ≡ t' = ap (λ r. r.1) f in
        let kept : query_cached find s.placeholders t ≡ (ok (row ∷ more), t) =
          e ∙ ap (λ v. (ok (row ∷ more), v)) same in
        inl (
          row,
          more,
          subst (λ v. query_cached find s.placeholders v ≡ (ok (row ∷ more), v)) (sym same ∙ last)
              kept,
        )
    first_run t t' rows (err g, u) e f = cc
    first_run t t' rows (panic, u) e f = cc
    first_run t t' rows (out_of_fuel, u) e f = cc

    -- In a database that can be connected to, whose state a search leaves as it is, and where a
    -- search finds a row once the insert has been made, a query that searches and inserts, once it
    -- succeeded, succeeds again with a row and changes nothing.
    pub find_or_create_twice :
        ((t t' : State) (rows : List Row)
          → query_cached make i.placeholders t ≡ (ok rows, t')
          → (row : Row) × (more : List Row) × (query_cached find s.placeholders t'
              ≡ (ok (row ∷ more), t')))
        → (t t' : State) (rows : List Row) → execute_internal db p query t ≡ (ok rows, t')
        → (row : Row) × (more : List Row) × (execute_internal db p query t' ≡ (ok (row ∷ more), t'))
    find_or_create_twice seen t t' rows e =
        let ran = log_failure-ok query _ rows t' (sym (run_lem t) ∙ e) in
        elim (first_run t t' rows _ refl ran) [
          | inl (row, more, found) ↦ (row, more, found_again t' row more found)
          | inr made ↦
              let (row, more, found) = seen t t' rows made in
              (row, more, found_again t' row more found)
        ]
