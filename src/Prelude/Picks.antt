-- ===== src/Prelude/Picks.antt =====
-- An element of a list at an index, and the others.
use Prim.Native.Nat.{ℕ, zero, suc, ◌+◌}
use mathlib.Core.Path.{◌≡◌, subst}
use mathlib.Core.List.{List, [], ◌∷◌}
use mathlib.Core.Logic.{inl, inr}
use mathlib.Core.Option.{Option, none, some}
use native.Mathlib.Omega.{arith}
use rwf.Prelude.Tests.{Option-cases}
use rwf.Prelude.Lists.{All}

unfoldable pub pick {ℓ} : {A : Type ℓ} → ℕ → List A → Option (A × List A)
pick i [] = none
pick zero (x ∷ xs) = some (x, xs)
pick (suc i) (x ∷ xs) = elim (pick i xs) [ none ↦ none | some (y, ys) ↦ some (y, x ∷ ys) ]

module _ {ℓ} {A : Type ℓ} where
  -- The sum of a weight over a list
  abbrev pub total : (A → ℕ) → List A → ℕ
  total f [] = 0
  total f (x ∷ xs) = f x + total f xs

  pub total-pick :
      (f : A → ℕ) (i : ℕ) (xs : List A) (x : A) (rest : List A)
      → pick i xs ≡ some (x, rest)
      → total f xs ≡ f x + total f rest
  unfolding pick
  total-pick f i [] x rest e = cc
  total-pick f zero (y ∷ ys) x rest e = ground arith
  total-pick f (suc i) (y ∷ ys) x rest e = elim (Option-cases (pick i ys)) [
    | inl missing ↦ absurd (ground (arith, missing))
    | inr ((z, zs), there) ↦ ground (arith, there, total-pick f i ys z zs)
  ]

module _ {ℓ κ} {A : Type ℓ} (P : A → Type κ) where
  pub All-pick :
      (i : ℕ) (xs : List A) (x : A) (rest : List A)
      → All P xs
      → pick i xs ≡ some (x, rest)
      → P x × All P rest
  unfolding pick
  All-pick i [] x rest h e = cc
  All-pick zero (y ∷ ys) x rest (p, h) e = (subst P (cc) p, subst (All P) (cc) h)
  All-pick (suc i) (y ∷ ys) x rest (p, h) e = elim (Option-cases (pick i ys)) [
    | inl missing ↦ absurd (ground (arith, missing))
    | inr ((z, zs), there) ↦
        let others = All-pick i ys z zs h there in
        let head : z ≡ x = ground (arith, there) in
        let tail : (y ∷ zs) ≡ rest = ground (arith, there) in
        (subst P head others.0, subst (All P) tail (p, others.1))
  ]
