-- ===== src/Prelude/Text/Splits.antt =====
-- Texts that are joined and split again.
use rwf.Prelude.Lists.{all, All}
use rwf.Prelude.Tests.{◌==◌, ==_refl}
use Prim.Native.Nat.{ℕ}
use mathlib.Core.Path.{◌≡◌, refl, ◌∙◌, ap}
use mathlib.Core.Bool.{Bool, true, false, not}
use mathlib.Core.List.{List, [], ◌∷◌, ◌++◌, append-nil, append_assoc}
use native.Mathlib.Omega.{arith}
use rwf.Prelude.Text.{Text, split_from, split, join}

-- A text without a character
abbrev pub lacks : ℕ → Text → Bool
lacks sep s = all (λ c. not (c == sep)) s

split_from-join :
    (sep : ℕ) (cur t rest : Text)
    → lacks sep t ≡ true
    → split_from sep cur (t ++ sep ∷ rest) ≡ (cur ++ t) ∷ split_from sep [] rest
unfolding split_from
split_from-join sep cur [] rest h = rw (==_refl sep, append-nil cur) refl
split_from-join sep cur (c ∷ t) rest h =
    let later = split_from-join sep (cur ++ c ∷ []) t rest (ground arith) in
    let miss : (c == sep) ≡ false = ground arith in
    rw miss (later ∙ ap (λ u. u ∷ split_from sep [] rest) (append_assoc cur (c ∷ []) t))

split_from-lacks :
    (sep : ℕ) (cur t : Text) → lacks sep t ≡ true → split_from sep cur t ≡ (cur ++ t) ∷ []
unfolding split_from
split_from-lacks sep cur [] h = rw (append-nil cur) refl
split_from-lacks sep cur (c ∷ t) h =
    let later = split_from-lacks sep (cur ++ c ∷ []) t (ground arith) in
    let miss : (c == sep) ≡ false = ground arith in
    rw miss (later ∙ ap (λ u. u ∷ []) (append_assoc cur (c ∷ []) t))

pub split-lacks : (sep : ℕ) (t : Text) → lacks sep t ≡ true → split sep t ≡ t ∷ []
unfolding split
split-lacks sep t h = split_from-lacks sep [] t h

pub split-pair :
    (sep : ℕ) (s t : Text)
    → lacks sep s ≡ true
    → lacks sep t ≡ true
    → split sep (s ++ sep ∷ t) ≡ s ∷ t ∷ []
unfolding split
split-pair sep s t h k = rw (split_from-join sep [] s t h, split_from-lacks sep [] t k) refl

pub split-join :
    (sep : ℕ) (t : Text) (ts : List Text)
    → lacks sep t ≡ true
    → All (λ s. lacks sep s ≡ true) ts
    → split sep (join (sep ∷ []) (t ∷ ts)) ≡ t ∷ ts
unfolding split join
split-join sep t [] h hs = split_from-lacks sep [] t h
split-join sep t (s ∷ ts) h (k, hs) =
    ap (split_from sep []) (append_assoc t (sep ∷ []) (join (sep ∷ []) (s ∷ ts)))
    ∙ split_from-join sep [] t (join (sep ∷ []) (s ∷ ts)) h
    ∙ ap (λ u. t ∷ u) (split-join sep s ts k hs)

pub all-append :
    (p : ℕ → Bool) (s t : Text) → all p s ≡ true → all p t ≡ true → all p (s ++ t) ≡ true
all-append p [] t h k = k
all-append p (c ∷ s) t h k = ground (arith, all-append p s t)
