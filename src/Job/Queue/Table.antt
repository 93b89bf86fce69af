-- ===== src/Job/Queue/Table.antt =====
-- What a search finds in the table, and what a save leaves.
use rwf.Prelude.{
  ℕ, not, ◌&&◌, ◌||◌, any, all, leb, some, List, [], ◌∷◌, Bool, true, false, ◌==◌, ◌≡◌, subst,
  arith, Bool-cases, inl, inr, All,
}
use rwf.Job.Queue.{Job, find, save, next, claimable}

module _ (P : Job → Type 0) where
  pub find-holds :
      (p : Job → Bool) (rows : List Job) (j : Job)
      → All P rows
      → find p rows ≡ some j
      → P j × (p j ≡ true)
  unfolding find
  find-holds p [] j h e = cc
  find-holds p (r ∷ rows) j (hr, h) e = elim (Bool-cases (p r)) [
    | inl hit ↦
        let found : r ≡ j = ground (arith, hit) in
        (subst P found hr, subst (λ k. p k ≡ true) found hit)
    | inr miss ↦ find-holds p rows j h (ground (arith, miss))
  ]

  pub save-All :
      {Q : Job → Type 0} (j : Job) (rows : List Job)
      → ((r : Job) → P r → (r.id == j.id) ≡ true → Q j)
      → ((r : Job) → P r → (r.id == j.id) ≡ false → Q r)
      → All P rows
      → All Q (save j rows)
  unfolding save
  save-All j [] new old h = tt
  save-All j (r ∷ rows) new old (hr, h) = elim (Bool-cases (r.id == j.id)) [
    | inl same ↦ rw same (new r hr same, save-All j rows new old h)
    | inr other ↦ rw other (old r hr other, save-All j rows new old h)
  ]

  pub All-weaken :
      {Q : Job → Type 0} (rows : List Job) → ((r : Job) → P r → Q r) → All P rows → All Q rows
  All-weaken [] f h = tt
  All-weaken (r ∷ rows) f (hr, h) = (f r hr, All-weaken rows f h)

  -- The job that is next stands in the table, and passes the filters.
  pub next-holds :
      (locked : List ℕ) (now id : ℕ) (rows : List Job) (j : Job)
      → All P rows
      → next locked now id rows ≡ some j
      → P j × (claimable now j ≡ true)
  unfolding next
  next-holds locked now id rows j h e =
      let free = λ (k : Job). claimable now k && not (any (λ l. l == k.id) locked) in
      let found =
        find-holds
          (λ k.
            k.id == id && free k && all (λ r. not (free r) || leb k.created_at r.created_at) rows)
          rows j h e in
      (found.0, ground (arith, found.1))
