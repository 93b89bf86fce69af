-- ===== src/Http/Router/Best.antt =====
-- The handler that the router finds.
use rwf.Prelude.{
  ltb, ◌||◌, Option, none, some, List, [], ◌∷◌, ◌++◌, Bool, true, false, not, ◌&&◌, ◌||◌,
  if◌then◌else◌, ◌≡◌, refl, sym, ap, subst, ◌∙◌, arith, Bool-cases, Option-cases, inl, inr, All,
  All-append,
}
use rwf.Prelude.Int.{pos, negsuc, ltb_ℤ, eqb_ℤ}
use rwf.Prelude.Text.{Text}
use rwf.Http.Path.{HttpPath}
use rwf.Http.Router.{Key, Handler, key, key_le, sort_by, last, filter, find_handler}
use rwf.Http.Router.Order.{key_le_total, key_le_trans, better, last-sort_by}

-- Whether a rank and length win over another: the rank is greater, or it is the same and the length is.
unfoldable pub beats : Key → Key → Bool
beats (r, l) (r', l') = ltb_ℤ r' r || (eqb_ℤ r r' && ltb l' l)

key_le-beats : (a b : Key) → key_le a b ≡ not (beats a b)
unfolding key_le beats
key_le-beats (pos r, l) (pos r', l') = ground arith
key_le-beats (pos r, l) (negsuc r', l') = ground arith
key_le-beats (negsuc r, l) (pos r', l') = ground arith
key_le-beats (negsuc r, l) (negsuc r', l') = ground arith

module _ {ℓ} {A : Type ℓ} (key : A → Key) (p : A → Bool) where
  -- `g` does not pass the test, or does not beat `h`.
  abbrev Earlier : A → A → Type 0
  Earlier h g = (p g && beats (key g) (key h)) ≡ false

  -- `g` does not pass the test, or `h` beats it.
  abbrev Later : A → A → Type 0
  Later h g = (p g && not (beats (key h) (key g))) ≡ false

  -- `h` passes the test; of what passes, nothing before it beats it, and it beats all behind it.
  pub record IsBest (xs : List A) (h : A) : Type ℓ where
    pub before : List A
    pub after : List A
    pub split : xs ≡ before ++ h ∷ after
    pub chosen : p h ≡ true
    pub earlier : All (Earlier h) before
    pub later : All (Later h) after

  -- The best one, or none where none passes
  pub data IsFound (xs : List A) : Option A → Type ℓ where
    best : {h : A} → IsBest xs h → IsFound xs (some h)
    absent : All (λ g. p g ≡ false) xs → IsFound xs none

  found : List A → Option A
  unfolding sort_by filter last
  found xs = last (sort_by key (filter p xs))

  found-cons :
      (x : A) (xs : List A) → found (x ∷ xs) ≡ (if p x then better key x (found xs) else found xs)
  unfolding found filter
  found-cons x xs = elim (Bool-cases (p x)) [
    | inl passed ↦ rw passed (last-sort_by key x (filter p xs))
    | inr failed ↦ rw failed refl
  ]

  better-some : (x : A) (o : Option A) → (y : A) × (better key x o ≡ some y)
  better-some x none = (x, refl)
  better-some x (some y) = (if key_le (key x) (key y) then y else x, refl)

  found-none : (xs : List A) → found xs ≡ none → All (λ g. p g ≡ false) xs
  found-none [] e = tt
  found-none (x ∷ xs) e = elim (Bool-cases (p x)) [
    | inl passed ↦
        let (y, there) = better-some x (found xs) in
        let step : found (x ∷ xs) ≡ better key x (found xs) = found-cons x xs ∙ (rw passed refl) in
        absurd (cc (step, there, e))
    | inr failed ↦
        let step : found (x ∷ xs) ≡ found xs = found-cons x xs ∙ (rw failed refl) in
        (failed, found-none xs (sym step ∙ e))
  ]

  key_le_refl : (k : Key) → key_le k k ≡ true
  key_le_refl k = elim (Bool-cases (key_le k k)) [ inl le ↦ le | inr gt ↦ key_le_total k k gt ]

  strictly : (h : A) (xs : List A) → All (Later h) xs → All (Earlier h) xs
  strictly h [] k = tt
  strictly h (x ∷ xs) (hx, k) = (
    elim (Bool-cases (key_le (key h) (key x))) [
      | inl le ↦ ground (arith, hx, key_le-beats (key h) (key x), le)
      | inr gt ↦ ground (arith, key_le-beats (key x) (key h), key_le_total (key h) (key x) gt)
    ],
    strictly h xs k,
  )

  IsBest-All : (xs : List A) (h : A) → IsBest xs h → All (Earlier h) xs
  IsBest-All xs h b = subst (All (Earlier h)) (sym b.split) (
      All-append (Earlier h) b.before (h ∷ b.after) b.earlier (
        ground (arith, key_le-beats (key h) (key h), key_le_refl (key h)),
        strictly h b.after b.later,
      ))

  -- What sorts no later than `y` sorts before `x`, where `y` does.
  below_strictly :
      (x y : A) (xs : List A)
      → key_le (key x) (key y) ≡ false
      → All (Earlier y) xs
      → All (Later x) xs
  below_strictly x y [] gt k = tt
  below_strictly x y (g ∷ xs) gt (hg, k) = (
    elim (Bool-cases (key_le (key x) (key g))) [
      | inl le ↦ elim (Bool-cases (key_le (key g) (key y))) [
        | inl le' ↦ absurd (cc (gt, key_le_trans (key x) (key g) (key y) le le'))
        | inr gt' ↦ ground (arith, hg, key_le-beats (key g) (key y), gt')
      ]
      | inr apart ↦ ground (arith, key_le-beats (key x) (key g), apart)
    ],
    below_strictly x y xs gt k,
  )

  none-Later : (h : A) (xs : List A) → All (λ g. p g ≡ false) xs → All (Later h) xs
  none-Later h [] k = tt
  none-Later h (x ∷ xs) (hx, k) = (ground (arith, hx), none-Later h xs k)

  head-IsBest : (x : A) (xs : List A) → p x ≡ true → All (Later x) xs → IsBest (x ∷ xs) x
  head-IsBest x xs passed k = record {
    before = [];
    after = xs;
    split = refl;
    chosen = passed;
    earlier = tt;
    later = k;
  }

  cons-IsBest : (x : A) (xs : List A) (h : A) → Earlier h x → IsBest xs h → IsBest (x ∷ xs) h
  cons-IsBest x xs h le rest = record {
    before = x ∷ rest.before;
    after = rest.after;
    split = ap (λ ys. x ∷ ys) rest.split;
    chosen = rest.chosen;
    earlier = (le, rest.earlier);
    later = rest.later;
  }

  found-some : (xs : List A) (h : A) → found xs ≡ some h → IsBest xs h
  found-some [] h e = absurd (unfold found in cc)
  found-some (x ∷ xs) h e = elim (Bool-cases (p x)) [
    | inl passed ↦
        let step : better key x (found xs) ≡ some h =
          sym (found-cons x xs ∙ (rw passed refl)) ∙ e in
        elim (Option-cases (found xs)) [
          | inl nothing ↦
              let same : x ≡ h = cc in
              subst (IsBest (x ∷ xs)) same
                (head-IsBest x xs passed (none-Later x xs (found-none xs nothing)))
          | inr (y, there) ↦ elim (Bool-cases (key_le (key x) (key y))) [
            | inl le ↦
                let kept : better key x (some y) ≡ some y = rw le refl in
                let same : y ≡ h = cc in
                subst (IsBest (x ∷ xs)) same (
                  cons-IsBest x xs y (ground (arith, key_le-beats (key x) (key y), le))
                    (found-some xs y there))
            | inr gt ↦
                let kept : better key x (some y) ≡ some x = rw gt refl in
                let same : x ≡ h = cc in
                subst (IsBest (x ∷ xs)) same (
                  head-IsBest x xs passed
                    (below_strictly x y xs gt (IsBest-All xs y (found-some xs y there))))
          ]
        ]
    | inr failed ↦
        cons-IsBest x xs h (ground (arith, failed))
          (found-some xs h (sym (found-cons x xs ∙ (rw failed refl)) ∙ e))
  ]

  found-IsFound : (xs : List A) → IsFound xs (found xs)
  found-IsFound xs = elim (Option-cases (found xs)) [
    | inl nothing ↦ rw nothing (absent (found-none xs nothing))
    | inr (h, there) ↦ rw there (best (found-some xs h there))
  ]

-- The router finds a handler whose regex matches, such that no handler before it that matches has a
-- greater rank, or the same rank and a longer path, and each handler behind it that matches has a
-- lesser rank, or the same rank and a shorter path; or none where none matches.
pub find_handler-IsFound {ℓ} :
    {C : Type ℓ} (matches : (regex path : Text) → Bool) (handlers : List (Handler C))
    (path : HttpPath)
    → IsFound key
        (λ g. matches g.path.regex path.base)
        handlers
        (find_handler matches handlers path)
unfolding find_handler found
find_handler-IsFound matches handlers path =
    found-IsFound key (λ g. matches g.path.regex path.base) handlers
