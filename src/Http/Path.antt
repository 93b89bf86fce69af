-- ===== src/Http/Path.antt =====
-- The path of a request and its query, rwf/src/http/path/mod.rs and rwf/src/http/path/query.rs.
pub mod RoundTrip
pub mod Base
mod Tests
use Prim.Native.Nat.{Ordering}
use rwf.Prelude.{
  ℕ, Option, none, some, List, [], ◌∷◌, ◌++◌, Bool, map, if◌then◌else◌, ◌==◌, is_empty,
}
use rwf.Prelude.Text.{Text, codes, text_cmp, text_eq, split, join, starts_with}
use rwf.Prelude.Outcome.{Outcome, ok, err}
use rwf.Http.Url.{urldecode, urlencode}

-- The map of a query, by increasing keys
abbrev pub Query : Type 0
Query = List (Text × Text)

pub record HttpPath : Type 0 where
  pub query : Query
  pub base : Text

pub data Error : Type 0 where
  malformed_request missing_parameter : Error

-- `BTreeMap::insert`
unfoldable pub insert : (key value : Text) → Query → Query
unfolding text_cmp
insert key value [] = (key, value) ∷ []
insert key value ((k, v) ∷ q) = elim (text_cmp key k) [
  | Ordering.lt ↦ (key, value) ∷ (k, v) ∷ q
  | Ordering.eq ↦ (k, value) ∷ q
  | Ordering.gt ↦ (k, v) ∷ insert key value q
]

-- `BTreeMap::get`
unfoldable pub lookup : Text → Query → Option Text
unfolding text_eq
lookup key [] = none
lookup key ((k, v) ∷ q) = if text_eq key k then some v else lookup key q

abbrev first : List Text → Text
first [] = []
first (t ∷ ts) = t

-- `Display for Query`
pub print_query : Query → Text
unfolding urlencode join
print_query q = join (codes "&") (map (λ (k, v). urlencode k ++ b'=' ∷ urlencode v) q)

-- `Display for Path`
unfoldable pub to_string : HttpPath → Text
unfolding print_query
to_string p = p.base ++ (if is_empty p.query then [] else b'?' ∷ print_query p.query)

-- `Path::from_parts` and `Path::default`
abbrev pub from_parts : Text → Query → HttpPath
from_parts base query = record { query = query; base = base }

-- `Path::pop_base`, of the characters of the two paths
pub pop_base : Text → Text → Text
pop_base [] base = []
pop_base (c ∷ s) [] = c ∷ pop_base s []
pop_base (c ∷ s) (d ∷ base) = if d == c then pop_base s base else c ∷ pop_base s base

-- The path from the root
abbrev pub absolute : Text → Text
absolute s = if starts_with s (codes "/") then s else b'/' ∷ s

-- `is_numeric` is `char::is_numeric`, of the Unicode tables.
module _ (is_numeric : ℕ → Bool) where
  -- The parts between the `=` of one parameter
  pub add_part : List Text → Query → Query
  unfolding urldecode insert
  add_part [] q = q
  add_part (k ∷ []) q = insert (urldecode is_numeric k) [] q
  add_part (k ∷ v ∷ []) q = insert (urldecode is_numeric k) (urldecode is_numeric v) q
  add_part (k ∷ v ∷ more) q = q

  pub add_parts : List Text → Query → Query
  unfolding add_part split
  add_parts [] q = q
  add_parts (part ∷ parts) q = add_parts parts (add_part (split b'=' part) q)

  -- `Query::parse`
  unfoldable pub parse_query : Text → Query
  unfolding add_parts split
  parse_query data_ = add_parts (split b'&' (first (split b'#' data_))) []

  -- `Query::get`, where `from_str` is that of the type asked for
  unfoldable pub get {ℓ} : {T : Type ℓ} → (from_str : Text → Option T) → Text → Query → Option T
  unfolding lookup urldecode
  get from_str name q = elim (lookup name q) [
    | none ↦ none
    | some v ↦ from_str (urldecode is_numeric v)
  ]

  -- `Query::get_required`
  unfoldable get_required {ℓ} :
      {T : Type ℓ} → (from_str : Text → Option T) → Text → Query → Outcome Error T
  unfolding get
  get_required from_str name q = elim (get from_str name q) [
    | none ↦ err missing_parameter
    | some v ↦ ok v
  ]

  -- The path and the parts between its `?`
  abbrev pub of_parts : Text → List Text → Outcome Error HttpPath
  of_parts path (base ∷ []) = ok (from_parts path [])
  of_parts path (base ∷ query ∷ []) = ok (from_parts base (parse_query query))
  of_parts path parts = err malformed_request

  -- `Path::parse`
  unfoldable pub parse : Text → Outcome Error HttpPath
  unfolding split starts_with parse_query
  parse s = of_parts (absolute s) (split b'?' (absolute s))
