-- ===== src/Middleware/Onion.antt =====
-- The chain of middleware as layers around the controller.
use mathlib.Core.List.{reverse-append}
use rwf.Prelude.{
  ℕ, ◌+◌, ◌-◌, List, [], ◌∷◌, ◌++◌, length, length-append, reverse, drop, append_assoc, ◌≡◌, refl,
  ap, subst, ◌∙◌, arith,
}
use rwf.Middleware.{
  Result, done, failed, Decision, forward, stop, bind, Handler, handle_request, respond,
  handle_response, answer, finish, handle_internal,
}

length-reverse : {A : Type 0} (xs : List A) → length (reverse xs) ≡ length xs
length-reverse [] = refl
length-reverse (x ∷ xs) =
    rw (reverse-append (x ∷ []) xs)
      (omega (arith, length-append (reverse xs) (x ∷ []), length-reverse xs))

drop-append : {A : Type 0} (xs ys : List A) (n : ℕ) → n ≡ length xs → drop n (xs ++ ys) ≡ ys
drop-append [] ys n h = rw h refl
drop-append (x ∷ xs) ys n h = rw h (drop-append xs ys (length xs) refl)

module _ {S E Request Response : Type 0} (controller : Request → S → Result S E Response)
    (error_response : E → Response)
    (from_request : Request → Response → S → Result S E Response) where
  -- The request that a response answers
  abbrev with_request : Request → Result S E Response → Result S E (Request × Response)
  with_request request (done response s) = done (request, response) s
  with_request request (failed e s) = failed e s

  -- The request goes through a handler to the handlers within it, and then to the controller; the response comes
  -- back through each handler that passed the request on. A handler that stops the request answers it.
  pub layers : List (Handler S E Request Response) → Request → S → Result S E (Request × Response)
  layers [] request s =
      with_request request (answer controller error_response from_request request s)
  layers (m ∷ ms) request s = bind (m.on_request request s) (λ d s'. elim d [
    | forward req ↦ bind (layers ms req s') (λ r s''. with_request r.0 (m.on_response r.0 r.1 s''))
    | stop req response ↦ with_request req (from_request req response s')
  ])

  -- The handlers that ran, from the last one on
  executed-reverse :
      (before ms : List (Handler S E Request Response))
      → drop (length (before ++ ms) - length before) (reverse (before ++ ms)) ≡ reverse before
  executed-reverse before ms = rw (reverse-append before ms) (
      drop-append (reverse ms) (reverse before) _
        (omega (arith, length-append before ms, length-reverse ms)))

  handle_response-executed :
      (before ms : List (Handler S E Request Response)) (request : Request) (response : Response)
      (s : S)
      → handle_response (before ++ ms) request response (length before) s
        ≡ respond (reverse before) request response s
  unfolding handle_response
  handle_response-executed before ms request response s =
      ap (λ hs. respond hs request response s) (executed-reverse before ms)

  bind-executed :
      (before ms : List (Handler S E Request Response)) (request : Request)
      (x : Result S E Response)
      → bind x (λ response s. handle_response (before ++ ms) request response (length before) s)
        ≡ bind (with_request request x) (λ r s. respond (reverse before) r.0 r.1 s)
  bind-executed before ms request (done response s) =
      handle_response-executed before ms request response s
  bind-executed before ms request (failed e s) = refl

  bind-respond :
      (m : Handler S E Request Response) (hs : List (Handler S E Request Response))
      (x : Result S E (Request × Response))
      → bind x (λ r s. respond (m ∷ hs) r.0 r.1 s)
        ≡ bind
            (bind x (λ r s. with_request r.0 (m.on_response r.0 r.1 s)))
            (λ r s. respond hs r.0 r.1 s)
  unfolding respond
  bind-respond m hs (failed e s) = refl
  bind-respond m hs (done (request, response) s) = go (m.on_response request response s)
    where
      go :
          (x : Result S E Response)
          → bind x (λ res t. respond hs request res t)
            ≡ bind (with_request request x) (λ r t. respond hs r.0 r.1 t)
      go (done res t) = refl
      go (failed e t) = refl

  -- Some handlers from the index `n` on, with what finishes and where the response goes behind them
  Serves : (n : ℕ) → (hs outer ms : List (Handler S E Request Response)) → Type 0
  Serves n hs outer ms =
      (request : Request) (s : S)
      → bind (handle_request ms n request s)
          (λ r s'. finish controller error_response from_request hs r.0 r.1 s')
        ≡ bind (layers ms request s) (λ r s'. respond outer r.0 r.1 s')

  deeper :
      (before ms : List (Handler S E Request Response)) (m : Handler S E Request Response)
      → Serves
          (length (before ++ m ∷ []))
          ((before ++ m ∷ []) ++ ms)
          (reverse (before ++ m ∷ []))
          ms
      → Serves (length before + 1) (before ++ m ∷ ms) (m ∷ reverse before) ms
  deeper before ms m h =
      subst (λ n. Serves n (before ++ m ∷ ms) (m ∷ reverse before) ms)
        (length-append before (m ∷ []))
        (subst (λ hs. Serves (length (before ++ m ∷ [])) hs (m ∷ reverse before) ms)
          (append_assoc before (m ∷ []) ms)
          (subst (λ hs. Serves (length (before ++ m ∷ [])) ((before ++ m ∷ []) ++ ms) hs ms)
            (reverse-append before (m ∷ [])) h))

  layer :
      (before ms : List (Handler S E Request Response)) (m : Handler S E Request Response)
      → Serves (length before + 1) (before ++ m ∷ ms) (m ∷ reverse before) ms
      → Serves (length before) (before ++ m ∷ ms) (reverse before) (m ∷ ms)
  unfolding Serves layers handle_request finish
  layer before ms m h request s = go (m.on_request request s)
    where
      go :
          (x : Result S E (Decision Request Response))
          → bind
              (bind x (λ d s'. elim d [
                | forward req ↦ handle_request ms (length before + 1) req s'
                | stop req response ↦ done (stop req response, length before) s'
              ]))
              (λ r s'. finish controller error_response from_request (before ++ m ∷ ms) r.0 r.1 s')
            ≡ bind
                (bind x (λ d s'. elim d [
                  | forward req ↦
                      bind
                        (layers ms req s')
                        (λ r s''. with_request r.0 (m.on_response r.0 r.1 s''))
                  | stop req response ↦ with_request req (from_request req response s')
                ]))
                (λ r s'. respond (reverse before) r.0 r.1 s')
      go (failed e t) = refl
      go (done (stop req response) t) =
          bind-executed before (m ∷ ms) req (from_request req response t)
      go (done (forward req) t) = h req t ∙ bind-respond m (reverse before) (layers ms req t)

  layers-from :
      (before ms : List (Handler S E Request Response))
      → Serves (length before) (before ++ ms) (reverse before) ms
  layers-from before [] =
      unfold Serves layers handle_request finish in
      λ request s.
        bind-executed before [] request (answer controller error_response from_request request s)
  layers-from before (m ∷ ms) =
      layer before ms m (deeper before ms m (layers-from (before ++ m ∷ []) ms))

  -- A request behind the authorization is handled as by layers around the controller: it goes
  -- through each middleware to those within it, and the response comes back, with the request that
  -- reached the innermost, through each one that passed it on; one that stops the request answers
  -- it, and its own part for responses is left out.
  pub handle_internal-layers :
      (handlers : List (Handler S E Request Response)) (request : Request) (s : S)
      → handle_internal controller error_response from_request handlers request s
        ≡ bind (layers handlers request s) (λ r s'. done r.1 s')
  unfolding handle_internal Serves respond
  handle_internal-layers handlers request s = layers-from [] handlers request s
