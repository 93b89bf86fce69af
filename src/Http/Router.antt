-- ===== src/Http/Router.antt =====
-- Routing: rwf/src/http/path/with_regex.rs, rwf/src/http/path/params.rs, rwf/src/http/handler.rs and
-- rwf/src/http/router.rs. The regex crate is a parameter: what it compiles, matches and captures.
pub mod Order
pub mod Best
mod Tests
use rwf.Prelude.{
  ℕ, ◌+◌, Option, none, some, List, [], ◌∷◌, ◌++◌, Bool, if◌then◌else◌, leb, reverse, get_elem?,
}
use rwf.Prelude.Int.{ℤ, pos, negsuc, ltb_ℤ, eqb_ℤ}
use rwf.Prelude.Text.{Text, codes, text_eq, split, join, starts_with, utf8_len}
use rwf.Prelude.Outcome.{Outcome, ok, err, panic, ◌>>=◌}
use rwf.Http.Path.{HttpPath, parse}

pub data PathType : Type 0 where
  rest wildcard route : PathType

pub record PathWithRegex : Type 0 where
  pub path : HttpPath
  pub params : List (Text × ℕ)
  pub regex : Text
  pub path_type : PathType

pub data Error : Type 0 where
  regex_error : Error

-- `str::ends_with`
ends_with : Text → Text → Bool
unfolding starts_with
ends_with s t = starts_with (reverse s) (reverse t)

abbrev tail : Text → Text
tail [] = []
tail (c ∷ s) = s

-- The parts of the regex, the parameters with their groups, and the group behind the last one. A later
-- parameter of a name stands before an earlier one.
regex_parts : List Text → (i : ℕ) → List (Text × ℕ) → List Text × List (Text × ℕ) × ℕ
unfolding starts_with
regex_parts [] i params = ([], params, i)
regex_parts (part ∷ parts) i params =
    let named = regex_parts parts (i + 1) ((tail part, i) ∷ params) in
    let plain = regex_parts parts i params in
    if starts_with part (codes ":")
    then (codes "([a-zA-Z0-9_-]+)" ∷ named.0, named.1, named.2)
    else (part ∷ plain.0, plain.1, plain.2)

abbrev path_suffix : PathType → Text
path_suffix rest = codes "(\\/[a-zA-Z0-9_-]+)?"
path_suffix route = []
path_suffix wildcard = codes ".*"

abbrev with_id : PathType → ℕ → List (Text × ℕ) → List (Text × ℕ)
with_id rest i params = (codes "id", i) ∷ params
with_id _ i params = params

-- The regex of a path
pub regex_of : Text → PathType → Text
unfolding regex_parts split join ends_with
regex_of base path_type =
    codes "^"
    ++ join (codes "\\/") ((regex_parts (split b'/' base) 1 []).0)
    ++ path_suffix path_type
    ++ (if ends_with base (codes "/") then codes "$" else codes "\\/?$")

pub params_of : Text → PathType → List (Text × ℕ)
unfolding regex_parts split
params_of base path_type =
    let parts = regex_parts (split b'/' base) 1 [] in with_id path_type parts.2 parts.1

-- `HashMap::get` of the groups of the parameters
group_of : Text → List (Text × ℕ) → Option ℕ
unfolding text_eq
group_of name [] = none
group_of name ((k, i) ∷ params) = if text_eq name k then some i else group_of name params

pub record Handler {ℓ} (C : Type ℓ) : Type ℓ where
  pub path : PathWithRegex
  pub name : Option Text
  pub controller : C
  pub rank : ℤ

-- `Handler::with_rank` and `Handler::name`
abbrev with_rank {ℓ} : {C : Type ℓ} → ℤ → Handler C → Handler C
with_rank rank h = record h { rank = rank }

abbrev named {ℓ} : {C : Type ℓ} → Text → Handler C → Handler C
named name h = record h { name = some name }

-- What the sort of `Router::find` compares: the rank, then the length of the path
abbrev pub Key : Type 0
Key = ℤ × ℕ

-- Whether `a` sorts no later than `b`
pub key_le : Key → Key → Bool
key_le (r, l) (r', l') = if eqb_ℤ r r' then leb l l' else ltb_ℤ r r'

abbrev pub key {ℓ} : {C : Type ℓ} → Handler C → Key
key h = (h.rank, utf8_len h.path.path.base)

-- `slice::sort_by`, a stable sort
module _ {ℓ} {A : Type ℓ} (key : A → Key) where
  pub insert_sorted : A → List A → List A
  unfolding key_le
  insert_sorted x [] = x ∷ []
  insert_sorted x (y ∷ ys) =
      let later = insert_sorted x ys in if key_le (key x) (key y) then x ∷ y ∷ ys else y ∷ later

  pub sort_by : List A → List A
  unfolding insert_sorted
  sort_by [] = []
  sort_by (x ∷ xs) = insert_sorted x (sort_by xs)

-- `slice::last`
pub last {ℓ} : {A : Type ℓ} → List A → Option A
last [] = none
last (x ∷ []) = some x
last (x ∷ y ∷ xs) = last (y ∷ xs)

pub filter {ℓ} : {A : Type ℓ} → (A → Bool) → List A → List A
filter p [] = []
filter p (x ∷ xs) = let rest = filter p xs in if p x then x ∷ rest else rest

module _ (captures : (regex path : Text) → Option (List (Option Text))) where
  abbrev without_slash : Option (Option Text) → Option Text
  without_slash (some (some t)) = some (if starts_with t (codes "/") then tail t else t)
  without_slash _ = none

  -- `Params::parameter`
  pub parameter : PathWithRegex → (base name : Text) → Option Text
  unfolding group_of starts_with
  parameter p base name = elim (group_of name p.params) [
    | none ↦ none
    | some index ↦ elim (captures p.regex base) [
      | none ↦ none
      | some groups ↦ without_slash (get_elem? groups index)
    ]
  ]

module _ (compiles : Text → Bool) where
  -- `PathWithRegex::new`
  path_with_regex : HttpPath → PathType → Outcome Error PathWithRegex
  unfolding regex_of params_of
  path_with_regex path path_type =
      if compiles (regex_of path.base path_type)
      then ok (record {
        path = path;
        params = params_of path.base path_type;
        regex = regex_of path.base path_type;
        path_type = path_type;
      })
      else err regex_error

  module _ {ℓ} {C : Type ℓ} where
    abbrev built : C → Outcome Error PathWithRegex → Outcome Error (Handler C)
    built controller (ok p) =
        ok (record { path = p; name = none; controller = controller; rank = pos 0 })
    built controller _ = panic

    -- `Handler::new`
    new : (is_numeric : ℕ → Bool) → Text → C → PathType → Outcome Error (Handler C)
    unfolding path_with_regex parse
    new is_numeric text controller path_type = elim (parse is_numeric text) [
      | ok path ↦ built controller (path_with_regex path path_type)
      | err e ↦ panic
      | panic ↦ panic
      | Outcome.out_of_fuel ↦ Outcome.out_of_fuel
    ]

    abbrev ranked : Outcome Error (Handler C) → Outcome Error (Handler C)
    ranked r = r >>= λ h. ok (with_rank (negsuc 19) h)

    -- `Handler::wildcard`, `Handler::rest` and `Handler::route`
    unfoldable new_wildcard : (is_numeric : ℕ → Bool) → Text → C → Outcome Error (Handler C)
    unfolding new
    new_wildcard is_numeric text controller = ranked (new is_numeric text controller wildcard)

module _ {ℓ} {C : Type ℓ} (matches : (regex path : Text) → Bool) where
  -- `Router::find`
  pub find_handler : List (Handler C) → HttpPath → Option (Handler C)
  unfolding filter sort_by last
  find_handler handlers path =
      last (sort_by key (filter (λ h. matches h.path.regex path.base) handlers))
