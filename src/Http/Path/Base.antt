-- ===== src/Http/Path/Base.antt =====
-- A path below another one.
use rwf.Prelude.{[], ◌∷◌, ◌++◌, ==_refl, ◌≡◌, refl}
use rwf.Prelude.Text.{Text}
use rwf.Http.Path.{pop_base}

pop_base-none : (s : Text) → pop_base s [] ≡ s
unfolding pop_base
pop_base-none [] = refl
pop_base-none (c ∷ s) = rw (pop_base-none s) refl

-- A path that begins with the base is left without it.
pop_base-append : (base rest : Text) → pop_base (base ++ rest) base ≡ rest
unfolding pop_base
pop_base-append [] rest = pop_base-none rest
pop_base-append (c ∷ base) rest = rw (==_refl c) (pop_base-append base rest)
