-- ===== src/Http/Router/Order.antt =====
-- The order that the router sorts by, and what the sort puts last.
use rwf.Prelude.{
  Option, none, some, List, [], ◌∷◌, true, false, if◌then◌else◌, ◌≡◌, refl, subst, ◌∙◌, arith,
  Bool-cases, inl, inr, All,
}
use rwf.Prelude.Int.{pos, negsuc}
use rwf.Http.Router.{Key, key_le, insert_sorted, sort_by, last}

pub key_le_total : (a b : Key) → key_le a b ≡ false → key_le b a ≡ true
unfolding key_le
key_le_total (pos r, l) (pos r', l') h = ground arith
key_le_total (pos r, l) (negsuc r', l') h = ground arith
key_le_total (negsuc r, l) (pos r', l') h = ground arith
key_le_total (negsuc r, l) (negsuc r', l') h = ground arith

pub key_le_trans : (a b c : Key) → key_le a b ≡ true → key_le b c ≡ true → key_le a c ≡ true
unfolding key_le
key_le_trans (pos r, l) (pos r', l') (pos r'', l'') h k = ground arith
key_le_trans (pos r, l) (pos r', l') (negsuc r'', l'') h k = ground arith
key_le_trans (pos r, l) (negsuc r', l') (pos r'', l'') h k = ground arith
key_le_trans (pos r, l) (negsuc r', l') (negsuc r'', l'') h k = ground arith
key_le_trans (negsuc r, l) (pos r', l') (pos r'', l'') h k = ground arith
key_le_trans (negsuc r, l) (pos r', l') (negsuc r'', l'') h k = ground arith
key_le_trans (negsuc r, l) (negsuc r', l') (pos r'', l'') h k = ground arith
key_le_trans (negsuc r, l) (negsuc r', l') (negsuc r'', l'') h k = ground arith

module _ {ℓ} {A : Type ℓ} (key : A → Key) where
  abbrev Below : A → A → Type 0
  Below x y = key_le (key x) (key y) ≡ true

  IsSorted : List A → Type 0
  IsSorted [] = Unit
  IsSorted (x ∷ xs) = All (Below x) xs × IsSorted xs

  -- The later of two where they tie
  abbrev pub better : A → Option A → Option A
  better x none = some x
  better x (some y) = some (if key_le (key x) (key y) then y else x)

  All-Below : (x y : A) (ys : List A) → Below x y → All (Below y) ys → All (Below x) ys
  All-Below x y [] h k = tt
  All-Below x y (z ∷ zs) h (hz, k) =
      (key_le_trans (key x) (key y) (key z) h hz, All-Below x y zs h k)

  All-insert_sorted :
      (y x : A) (ys : List A)
      → Below y x
      → All (Below y) ys
      → All (Below y) (insert_sorted key x ys)
  unfolding insert_sorted
  All-insert_sorted y x [] h k = (h, tt)
  All-insert_sorted y x (z ∷ zs) h (hz, k) = elim (Bool-cases (key_le (key x) (key z))) [
    | inl le ↦ rw le (h, (hz, k))
    | inr gt ↦ rw gt (hz, All-insert_sorted y x zs h k)
  ]

  insert_sorted-IsSorted : (x : A) (ys : List A) → IsSorted ys → IsSorted (insert_sorted key x ys)
  unfolding insert_sorted IsSorted
  insert_sorted-IsSorted x [] h = (tt, tt)
  insert_sorted-IsSorted x (y ∷ ys) (below, h) = elim (Bool-cases (key_le (key x) (key y))) [
    | inl le ↦ rw le ((le, All-Below x y ys (le) below), (below, h))
    | inr gt ↦ rw gt (
      All-insert_sorted y x ys (key_le_total (key x) (key y) gt) below,
      insert_sorted-IsSorted x ys h,
    )
  ]

  last-All : (y : A) (xs : List A) (w : A) → All (Below y) xs → last xs ≡ some w → Below y w
  unfolding last
  last-All y [] w h e = cc
  last-All y (x ∷ []) w (hx, h) e = let same : x ≡ w = cc in subst (Below y) same hx
  last-All y (x ∷ z ∷ xs) w (hx, h) e = last-All y (z ∷ xs) w h e

  last-some : (x : A) (xs : List A) → (w : A) × (last (x ∷ xs) ≡ some w)
  unfolding last
  last-some x [] = (x, refl)
  last-some x (y ∷ xs) = last-some y xs

  last-cons :
      (y x : A) (ys : List A) → last (y ∷ insert_sorted key x ys) ≡ last (insert_sorted key x ys)
  unfolding insert_sorted last
  last-cons y x [] = refl
  last-cons y x (z ∷ zs) = elim (Bool-cases (key_le (key x) (key z))) [
    | inl le ↦ rw le refl
    | inr gt ↦ rw gt refl
  ]

  last-insert_sorted :
      (x : A) (ys : List A) → IsSorted ys → last (insert_sorted key x ys) ≡ better x (last ys)
  unfolding insert_sorted last IsSorted
  last-insert_sorted x [] h = refl
  last-insert_sorted x (y ∷ []) h = elim (Bool-cases (key_le (key x) (key y))) [
    | inl le ↦ rw le refl
    | inr gt ↦ rw gt refl
  ]
  last-insert_sorted x (y ∷ z ∷ zs) (below, h) = elim (Bool-cases (key_le (key x) (key y))) [
    | inl le ↦
        let (w, e) = last-some z zs in
        let through = key_le_trans (key x) (key y) (key w) le (last-All y (z ∷ zs) w below e) in
        rw (le, e, through) refl
    | inr gt ↦ rw gt (last-cons y x (z ∷ zs) ∙ last-insert_sorted x (z ∷ zs) h)
  ]

  sort_by-IsSorted : (xs : List A) → IsSorted (sort_by key xs)
  unfolding sort_by IsSorted
  sort_by-IsSorted [] = tt
  sort_by-IsSorted (x ∷ xs) = insert_sorted-IsSorted x (sort_by key xs) (sort_by-IsSorted xs)

  pub last-sort_by :
      (x : A) (xs : List A) → last (sort_by key (x ∷ xs)) ≡ better x (last (sort_by key xs))
  unfolding sort_by
  last-sort_by x xs = last-insert_sorted x (sort_by key xs) (sort_by-IsSorted xs)
