-- ===== src/Orm/Migrations/Apply/Failure.antt =====
-- What a migration that fails leaves.
use rwf.Prelude.{Option, List, [], ◌∷◌, ◌++◌, Bool, false, ◌≡◌, ◌≢◌, refl, sym, ap, ◌∙◌}
use rwf.Prelude.Int.{ℤ}
use rwf.Prelude.Text.{Text}
use rwf.Prelude.Outcome.{Outcome, ok, err, panic, out_of_fuel}
use rwf.Orm.Value.{Printers}
use rwf.Orm.Query.Execute.{Error}
use rwf.Orm.Migrations.{Direction, Migration, path}
use rwf.Orm.Migrations.Store.{Store, Folder, root_path, Run, bound_to}
use rwf.Orm.Migrations.Apply.{migrate_one, work, queries_of, finished, with_transaction}
use rwf.Orm.Migrations.Apply.Chosen.{chosen, one, looped, apply_each, loop-chosen}

module _ (store : Store) (folder : Folder) (p : Printers) (log_queries : Bool)
    (now : store.Tx → Text) where
  open store use {State, Tx, begin, commit}
  open folder use {join, read_to_string}

  -- The migrations before one succeed, and that one fails.
  abbrev pub Stops : Direction → List Migration → State → Outcome Error (Unit {0}) → State → Type 0
  Stops d ms s r t =
      (before : List Migration) × (m : Migration) × (rest : List Migration) × (ms
        ≡ before ++ m ∷ rest)
      × (apply_each store folder p log_queries now d before s ≡ (ok tt, t))
      × ((one store folder p log_queries now d m t).0 ≡ r)

  module _ (begin_keeps : (s : State) → (begin s).1 ≡ s)
      (commit_keeps : (x : Tx) (s : State) → (commit x s).0 ≢ ok tt → (commit x s).1 ≡ s) where
    finished_keeps :
        (r : Outcome Error (Unit {0}) × Tx) (s : State)
        → (finished store folder p log_queries now r s).0 ≢ ok tt
        → (finished store folder p log_queries now r s).1 ≡ s
    finished_keeps (ok u, x) s n = commit_keeps x s n
    finished_keeps (err e, x) s n = refl
    finished_keeps (panic, x) s n = refl
    finished_keeps (out_of_fuel, x) s n = refl

    begun_keeps :
        (f : Run Tx (Unit {0})) (s : State) (b : Outcome Error Tx × State)
        → b.1 ≡ s
        → (bound_to (λ x. finished store folder p log_queries now (f x)) b).0 ≢ ok tt
        → (bound_to (λ x. finished store folder p log_queries now (f x)) b).1 ≡ s
    begun_keeps f s (ok x, u) e n = finished_keeps (f x) u n ∙ e
    begun_keeps f s (err g, u) e n = e
    begun_keeps f s (panic, u) e n = e
    begun_keeps f s (out_of_fuel, u) e n = e

    transaction_keeps :
        (f : Run Tx (Unit {0})) (s : State)
        → (with_transaction store folder p log_queries now f s).0 ≢ ok tt
        → (with_transaction store folder p log_queries now f s).1 ≡ s
    transaction_keeps f s = begun_keeps f s (begin s) (begin_keeps s)

    read_keeps :
        (d : Direction) (m : Migration) (s : State) (text : Outcome Error Text)
        → let r : Outcome Error (Unit {0}) × State =
            bound_to
              (λ sql.
                with_transaction store folder p log_queries now
                  (work store folder p log_queries now d m (queries_of sql)))
              (text, s) in
          r.0 ≢ ok tt → r.1 ≡ s
    read_keeps d m s (ok sql) n = transaction_keeps _ s n
    read_keeps d m s (err e) n = refl
    read_keeps d m s panic n = refl
    read_keeps d m s out_of_fuel n = refl

    rooted_keeps :
        (d : Direction) (m : Migration) (s : State) (root : Outcome Error Text)
        → let r : Outcome Error (Unit {0}) × State =
            bound_to
              (λ dir u.
                bound_to
                  (λ sql.
                    with_transaction store folder p log_queries now
                      (work store folder p log_queries now d m (queries_of sql)))
                  (read_to_string (join dir (path d m)), u))
              (root, s) in
          r.0 ≢ ok tt → r.1 ≡ s
    rooted_keeps d m s (ok dir) n = read_keeps d m s (read_to_string (join dir (path d m))) n
    rooted_keeps d m s (err e) n = refl
    rooted_keeps d m s panic n = refl
    rooted_keeps d m s out_of_fuel n = refl

    one_keeps :
        (d : Direction) (m : Migration) (s : State)
        → (one store folder p log_queries now d m s).0 ≢ ok tt
        → (one store folder p log_queries now d m s).1 ≡ s
    unfolding migrate_one
    one_keeps d m s = rooted_keeps d m s (root_path folder)

    first-Stops :
        (d : Direction) (m : Migration) (ms : List Migration) (s t : State)
        (r : Outcome Error (Unit {0}))
        → r ≢ ok tt
        → one store folder p log_queries now d m s ≡ (r, t)
        → Stops d (m ∷ ms) s r t
    first-Stops d m ms s t r n e =
        let failed : (one store folder p log_queries now d m s).0 ≢ ok tt =
          λ h. n (sym (ap (λ x. x.0) e) ∙ h) in
        let same : s ≡ t = sym (one_keeps d m s failed) ∙ ap (λ x. x.1) e in
        (
          [],
          m,
          ms,
          refl,
          ap (λ u. (ok tt, u)) same,
          ap (λ u. (one store folder p log_queries now d m u).0) (sym same) ∙ ap (λ x. x.0) e,
        )

    step-Stops :
        (d : Direction) (m : Migration) (ms : List Migration) (s t : State)
        (r : Outcome Error (Unit {0})) (x : Outcome Error (Unit {0}) × State)
        → r ≢ ok tt
        → one store folder p log_queries now d m s ≡ x
        → bound_to (λ _. apply_each store folder p log_queries now d ms) x ≡ (r, t)
        → ((u : State)
            → apply_each store folder p log_queries now d ms u ≡ (r, t)
            → Stops d ms u r t)
        → Stops d (m ∷ ms) s r t
    step-Stops d m ms s t r (ok v, u) n e h ih =
        let (before, k, rest, split, ran, last) = ih u h in
        (m ∷ before, k, rest, ap (λ ks. m ∷ ks) split, rw e ran, last)
    step-Stops d m ms s t r (err g, u) n e h ih = first-Stops d m ms s t r n (e ∙ h)
    step-Stops d m ms s t r (panic, u) n e h ih = first-Stops d m ms s t r n (e ∙ h)
    step-Stops d m ms s t r (out_of_fuel, u) n e h ih = first-Stops d m ms s t r n (e ∙ h)

    each-Stops :
        (d : Direction) (ms : List Migration) (s t : State) (r : Outcome Error (Unit {0}))
        → r ≢ ok tt
        → apply_each store folder p log_queries now d ms s ≡ (r, t)
        → Stops d ms s r t
    each-Stops d [] s t r n e = absurd (n (sym (ap (λ x. x.0) e)))
    each-Stops d (m ∷ ms) s t r n e =
        step-Stops d m ms s t r _ n refl e (λ u. each-Stops d ms u t r n)

    -- Where a transaction that cannot begin or be committed leaves the database as it is: when the
    -- loop of `apply` fails, the migrations before the one that failed were each applied and
    -- committed, in their order, and nothing of that one, nor of those behind it, is left in the
    -- database.
    pub loop-Stops :
        (d : Direction) (v : Option ℤ) (ms : List Migration) (s t : State)
        (r : Outcome Error (Unit {0}))
        → r ≢ ok tt
        → looped store folder p log_queries now d v false ms s ≡ (r, t)
        → Stops d (chosen d v ms) s r t
    loop-Stops d v ms s t r n e =
        each-Stops d (chosen d v ms) s t r n
          (sym (ap (λ f. f s) (loop-chosen store folder p log_queries now d v ms)) ∙ e)
