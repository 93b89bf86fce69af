-- ===== src/Middleware.antt =====
-- The chain of middleware, rwf/src/controller/middleware/mod.rs and rwf/src/controller/mod.rs. A call changes the
-- state that the middleware share, and gives a result or an error.
pub mod Onion
pub mod Csrf
pub mod SecureId
mod Tests
use rwf.Prelude.{ℕ, ◌+◌, ◌-◌, List, [], ◌∷◌, length, reverse, drop}

pub data Result (State Error A : Type 0) : Type 0 where
  done : A → State → Result State Error A
  failed : Error → State → Result State Error A

-- `Outcome`
pub data Decision (Request Response : Type 0) : Type 0 where
  forward : Request → Decision Request Response
  stop : Request → Response → Decision Request Response

-- `?`
abbrev pub bind : {S E A B : Type 0} → Result S E A → (A → S → Result S E B) → Result S E B
bind (done a s) k = k a s
bind (failed e s) k = failed e s

-- `Middleware`
pub record Handler (S E Request Response : Type 0) : Type 0 where
  pub on_request : Request → S → Result S E (Decision Request Response)
  pub on_response : Request → Response → S → Result S E Response

module _ {S E Request Response : Type 0} where
  -- `MiddlewareSet::handle_request`, from the handler at `idx` on
  pub handle_request :
      List (Handler S E Request Response)
      → (idx : ℕ) → Request
      → S
      → Result S E (Decision Request Response × ℕ)
  handle_request [] idx request s = done (forward request, idx) s
  handle_request (m ∷ ms) idx request s = bind (m.on_request request s) (λ d s'. elim d [
    | forward req ↦ handle_request ms (idx + 1) req s'
    | stop req response ↦ done (stop req response, idx) s'
  ])

  -- A response through some handlers, in their order
  pub respond : List (Handler S E Request Response) → Request → Response → S → Result S E Response
  respond [] request response s = done response s
  respond (m ∷ ms) request response s =
      bind (m.on_response request response s) (λ res s'. respond ms request res s')

  -- `MiddlewareSet::handle_response`
  pub handle_response :
      List (Handler S E Request Response)
      → Request
      → Response
      → (executed : ℕ) → S
      → Result S E Response
  unfolding respond
  handle_response handlers request response executed s =
      respond (drop (length handlers - executed) (reverse handlers)) request response s

-- `controller` is `Controller::handle`, `error_response` the response to one of its errors, and `from_request` that
-- of `Response`.
module _ {S E Request Response : Type 0} (controller : Request → S → Result S E Response)
    (error_response : E → Response)
    (from_request : Request → Response → S → Result S E Response) where
  abbrev answered : Request → Result S E Response → Result S E Response
  answered request (done response s) = from_request request response s
  answered request (failed err s) = done (error_response err) s

  -- The response of the controller
  abbrev pub answer : Request → S → Result S E Response
  answer request s = answered request (controller request s)

  -- The response behind the middleware
  pub finish :
      List (Handler S E Request Response)
      → Decision Request Response
      → (executed : ℕ) → S
      → Result S E Response
  unfolding handle_response
  finish handlers (forward request) executed s =
      bind (answer request s) (λ response s'. handle_response handlers request response executed s')
  finish handlers (stop request response) executed s =
      bind (from_request request response s)
        (λ res s'. handle_response handlers request res executed s')

  -- `Controller::handle_internal`, behind the authorization
  pub handle_internal : List (Handler S E Request Response) → Request → S → Result S E Response
  unfolding handle_request finish
  handle_internal handlers request s =
      bind (handle_request handlers 0 request s) (λ r s'. finish handlers r.0 r.1 s')
