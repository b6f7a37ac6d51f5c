-- ===== src/Dispatch/Call/Runs.antt =====
-- What a list of middleware does to a request.
use typeway.Base.{ℕ, ◌≡◌, refl, inl, inr, ◌⊎◌, List, [], ◌∷◌}
use typeway.Dispatch.Synthetic.{Http, Parts}
use typeway.Dispatch.Wrap.{Response}
use typeway.Dispatch.Router.{GrpcMiddleware, run_middleware}

module _ (W : Http) where
  -- Middleware one after the other: each changes the request for the next, up to the first that rejects.
  pub data Runs
      : List (GrpcMiddleware W) → Parts W → List ℕ → (Parts W × List ℕ) ⊎ Response → Type 0 where
    all_passed : (parts : Parts W) (body : List ℕ) → Runs [] parts body (inl (parts, body))
    passes :
        (mw : GrpcMiddleware W) (mws : List (GrpcMiddleware W)) (parts parts' : Parts W)
        (body body' : List ℕ) {o : (Parts W × List ℕ) ⊎ Response}
        → mw parts body ≡ inl (parts', body')
        → Runs mws parts' body' o
        → Runs (mw ∷ mws) parts body o
    rejects :
        (mw : GrpcMiddleware W) (mws : List (GrpcMiddleware W)) (parts : Parts W) (body : List ℕ)
        (response : Response)
        → mw parts body ≡ inr response
        → Runs (mw ∷ mws) parts body (inr response)

  pub run_middleware-Runs :
      (mws : List (GrpcMiddleware W)) (parts : Parts W) (body : List ℕ)
      → Runs mws parts body (run_middleware W mws parts body)
  unfolding run_middleware
  run_middleware-Runs [] parts body = all_passed parts body
  run_middleware-Runs (mw ∷ mws) parts body =
      by_first (run_middleware-Runs mws) (mw parts body) refl
    where
      by_first :
          ((p : Parts W) (b : List ℕ) → Runs mws p b (run_middleware W mws p b))
          → (o : (Parts W × List ℕ) ⊎ Response) → mw parts body ≡ o
          → Runs (mw ∷ mws) parts body (elim o as (λ _. (Parts W × List ℕ) ⊎ Response) [
            | inl (parts', body') ↦ run_middleware W mws parts' body'
            | inr response ↦ inr response
          ])
      by_first next (inl (parts', body')) e =
          passes mw mws parts parts' body body' e (next parts' body')
      by_first next (inr response) e = rejects mw mws parts body response e
