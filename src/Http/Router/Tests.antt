-- ===== src/Http/Router/Tests.antt =====
-- Routes at fixed paths.
use rwf.Prelude.{ℕ, [], ◌∷◌, List, Option, some, none, true, ◌≡◌, refl}
use rwf.Prelude.Int.{ℤ, pos, negsuc}
use rwf.Prelude.Text.{Text, codes, utf8_len}
use rwf.Http.Path.{from_parts}
use rwf.Http.Router.{
  Handler, PathWithRegex, route, rest, regex_of, params_of, parameter, key, find_handler,
}
use rwf.Http.Router.Best.{IsFound, find_handler-IsFound}

regex_sample :
    regex_of (codes "/api/orders/:name/receipt") rest
    ≡ codes "^\\/api\\/orders\\/([a-zA-Z0-9_-]+)\\/receipt(\\/[a-zA-Z0-9_-]+)?\\/?$"
unfolding regex_of
regex_sample = refl

params_sample :
    params_of (codes "/api/orders/:name/receipt") rest ≡ (codes "id", 2) ∷ (codes "name", 1) ∷ []
unfolding params_of
params_sample = refl

abbrev at_path : Text → PathWithRegex
at_path base = record {
  path = from_parts base [];
  params = params_of base rest;
  regex = base;
  path_type = route;
}

-- What the groups of the regex take
abbrev captures : Text → Text → Option (List (Option Text))
captures regex base = some (some base ∷ some (codes "apple_bees") ∷ some (codes "/5") ∷ [])

parameter_sample :
    parameter captures
      (at_path (codes "/api/orders/:name/receipt"))
      (codes "/api/orders/apple_bees/receipt/5")
      (codes "id")
    ≡ some (codes "5")
unfolding parameter params_of
parameter_sample = refl

abbrev handler : Text → ℕ → ℤ → Handler ℕ
handler base controller rank = record {
  path = at_path base;
  name = none;
  controller = controller;
  rank = rank;
}

abbrev handlers : List (Handler ℕ)
handlers =
    handler (codes "/a") 1 (pos 0)
    ∷ handler (codes "/a/b") 2 (negsuc 19)
    ∷ handler (codes "/c") 3 (pos 0)
    ∷ handler (codes "/") 4 (pos 0)
    ∷ []

-- Of the paths of the greatest rank and length the last is found.
find_sample :
    find_handler (λ regex path. true) handlers (from_parts (codes "/a/b") [])
    ≡ some (handler (codes "/c") 3 (pos 0))
unfolding find_handler utf8_len
find_sample = refl

find_handler-IsFound_example :
    IsFound key
      (λ g. true)
      handlers
      (find_handler (λ regex path. true) handlers (from_parts (codes "/a/b") []))
find_handler-IsFound_example =
    find_handler-IsFound (λ regex path. true) handlers (from_parts (codes "/a/b") [])
