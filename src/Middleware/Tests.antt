-- ===== src/Middleware/Tests.antt =====
-- A chain of middleware that keeps a trace.
use rwf.Prelude.{ℕ, ◌+◌, List, [], ◌∷◌, ◌==◌, ◌≡◌, refl, if◌then◌else◌}
use rwf.Middleware.{Result, done, forward, stop, bind, Handler, handle_internal}
use rwf.Middleware.Onion.{layers, handle_internal-layers}

-- A handler that stops one request; the trace is the state.
abbrev handler : (name stopped : ℕ) → Handler (List ℕ) ℕ ℕ ℕ
handler name stopped = record {
  on_request = λ r s. done (if r == stopped then stop r 403 else forward r) (name ∷ s);
  on_response = λ r res s. done res ((name + 100) ∷ s);
}

abbrev handlers : List (Handler (List ℕ) ℕ ℕ ℕ)
handlers = handler 1 0 ∷ handler 2 5 ∷ handler 3 0 ∷ []

abbrev controller : ℕ → List ℕ → Result (List ℕ) ℕ ℕ
controller r s = done 200 (50 ∷ s)

abbrev keep : ℕ → ℕ → List ℕ → Result (List ℕ) ℕ ℕ
keep r res s = done res s

passed_sample :
    handle_internal controller (λ e. 500) keep handlers 7 []
    ≡ done 200 (101 ∷ 102 ∷ 103 ∷ 50 ∷ 3 ∷ 2 ∷ 1 ∷ [])
unfolding handle_internal
passed_sample = refl

stopped_sample :
    handle_internal controller (λ e. 500) keep handlers 5 [] ≡ done 403 (101 ∷ 2 ∷ 1 ∷ [])
unfolding handle_internal
stopped_sample = refl

handle_internal-layers_example :
    handle_internal controller (λ e. 500) keep handlers 5 []
    ≡ bind (layers controller (λ e. 500) keep handlers 5 []) (λ r s. done r.1 s)
handle_internal-layers_example = handle_internal-layers controller (λ e. 500) keep handlers 5 []
