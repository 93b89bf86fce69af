-- ===== src/Template/Render/Cache.antt =====
-- `Templates` of rwf/src/view/cache.rs, with `Template::new`, `from_str` and `cached` of
-- rwf/src/view/template/mod.rs. The files may differ between two calls.
use rwf.Prelude.{
  Option, none, some, List, [], ◌∷◌, Bool, true, false, if◌then◌else◌, Bool-cases, ◌≡◌, refl, sym,
  ap, ◌∙◌, inl, inr,
}
use rwf.Prelude.Text.{Text, text_eq, text_eq_refl}
use rwf.Prelude.Outcome.{ok, err, panic, out_of_fuel, or_err, ◌>>=◌}
use rwf.Template.Token.{Result, template_does_not_exist}
use rwf.Template.Host.{Host}
use rwf.Template.Statement.{Statements}
use rwf.Template.Render.{compile, map_err}

pub record Template : Type 0 where
  pub program : Statements
  pub path : Option Text

-- The map of the templates by path
abbrev pub Cache : Type 0
Cache = List (Text × Template)

abbrev lookup : Text → Cache → Option Template
lookup path [] = none
lookup path ((q, t) ∷ rest) =
    let later = lookup path rest in if text_eq q path then some t else later

abbrev put : Text → Template → Cache → Cache
put path t [] = (path, t) ∷ []
put path t ((q, u) ∷ rest) =
    let later = put path t rest in if text_eq q path then (q, t) ∷ rest else (q, u) ∷ later

abbrev stored : Bool → Text → Cache → Result Template → Result Template × Cache
stored true path c (ok t) = (ok t, put path t c)
stored false path c (ok t) = (ok t, c)
stored _ path c (err e) = (err e, c)
stored _ path c panic = (panic, c)
stored _ path c out_of_fuel = (out_of_fuel, c)

abbrev or_stored : Option Template → Bool → Text → Cache → Result Template → Result Template × Cache
or_stored (some t) caches path c r = (ok t, c)
or_stored none caches path c r = stored caches path c r

abbrev done : Result Template × Cache → Result (Unit {0}) × Cache
done (ok t, c) = (ok tt, c)
done (err e, c) = (err e, c)
done (panic, c) = (panic, c)
done (out_of_fuel, c) = (out_of_fuel, c)

module _ (h : Host) where
  open h use {read_file, pretty_from_path}

  new : Text → Result Template
  unfolding compile
  new path = do
    source ← or_err (read_file path) (template_does_not_exist path)
    program ← compile h source
    ok record { program = program; path = some path }

  from_text : Text → Result Template
  unfolding compile
  from_text source = do program ← compile h source; ok record { program = program; path = none }

  -- `get` and `from_str`; a template that is there is not made, and `caches` is the configuration.
  unfoldable pub get : (caches : Bool) → Text → Cache → Result Template × Cache
  unfolding new text_eq
  get caches path c = or_stored (lookup path c) caches path c (new path)

  unfoldable get_text : (caches : Bool) → (path source : Text) → Cache → Result Template × Cache
  unfolding from_text text_eq
  get_text caches path source c = or_stored (lookup path c) caches path c (from_text source)

  unfoldable preload : Text → Cache → Result (Unit {0}) × Cache
  unfolding new text_eq
  preload path c = done (stored true path c (new path))

  unfoldable preload_text : (path source : Text) → Cache → Result (Unit {0}) × Cache
  unfolding from_text text_eq
  preload_text path source c = done (stored true path c (from_text source))

  -- `Template::cached` and `load`
  unfoldable cached : (caches : Bool) → Text → Cache → Result Template × Cache
  unfolding get map_err
  cached caches path c = let r = get caches path c in (map_err (pretty_from_path path) r.0, r.1)

lookup-put : (path : Text) (t : Template) (c : Cache) → lookup path (put path t c) ≡ some t
lookup-put path t [] = rw (text_eq_refl path) refl
lookup-put path t ((q, u) ∷ rest) = elim (Bool-cases (text_eq q path)) [
  | inl e ↦ rw (e, e) refl
  | inr e ↦ rw (e, e) (lookup-put path t rest)
]

stored-lookup :
    (path : Text) (c c' : Cache) (r : Result Template) (t : Template)
    → stored true path c r ≡ (ok t, c')
    → lookup path c' ≡ some t
stored-lookup path c c' (ok u) t e =
    let same : some u ≡ some t = (cc) in
    sym (ap (λ x. lookup path x.1) e) ∙ lookup-put path u c ∙ same
stored-lookup path c c' (err g) t e = cc
stored-lookup path c c' panic t e = cc
stored-lookup path c c' out_of_fuel t e = cc

or_stored-lookup :
    (path : Text) (c c' : Cache) (found : Option Template) (r : Result Template) (t : Template)
    → lookup path c ≡ found
    → or_stored found true path c r ≡ (ok t, c')
    → lookup path c' ≡ some t
or_stored-lookup path c c' (some u) r t l e =
    let same : some u ≡ some t = (cc) in sym (ap (λ x. lookup path x.1) e) ∙ l ∙ same
or_stored-lookup path c c' none r t l e = stored-lookup path c c' r t e

-- A template that was got with caching is got again as it was, and the cache stays as it is,
-- whatever the files hold then and whether templates are still cached.
pub get_twice :
    (h h' : Host) (caches : Bool) (path : Text) (c c' : Cache) (t : Template)
    → get h true path c ≡ (ok t, c')
    → get h' caches path c' ≡ (ok t, c')
unfolding get
get_twice h h' caches path c c' t e =
    rw (or_stored-lookup path c c' (lookup path c) (new h path) t refl e) refl
