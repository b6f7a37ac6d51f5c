-- ===== src/Router/Request/Limits.antt =====
-- The body limit, and the two ways in.
use typeway.Base.{
  ℕ, ◌≤◌, ◌≡◌, refl, Bool, false, List, Option, none, some, length, arith, Option-cases, inl, inr,
}
use typeway.Router.Matchit.{Matchit}
use typeway.Router.Method.{Method}
use typeway.Router.Prefix.{strip_prefix}
use typeway.Router.Table.{LookupOutcome, hit, method_not_allowed, not_found, resolve}
use typeway.Router.Request.{
  Call, handled, Router, collect_body_limited, dispatch, dispatch_bytes, route, route_with_bytes,
}

module _ (matches : List ℕ → List ℕ → Bool) (T : Matchit matches ℕ) (U : Matchit matches (Unit {0}))
    (H : Type 0) where
  dispatch-within :
      (r : Router matches T U H) (o : LookupOutcome matches T U H) (body : Option (List ℕ))
      (c : Call)
      → dispatch matches T U H r o body ≡ handled c
      → (length c.body ≤ r.max_body_size) × (body ≡ some c.body) × (o ≡ hit c.index)
  unfolding collect_body_limited
  dispatch-within r (hit i) none c e = cc
  dispatch-within r (hit i) (some bytes) c e = ground arith
  dispatch-within r method_not_allowed body c e = cc
  dispatch-within r not_found body c e = ground arith

  -- A handler called by `route` gets the request's whole body, never longer than the limit, and it is
  -- the one that resolution found for the path behind the prefix.
  pub route-handled :
      (r : Router matches T U H) (method : Method) (path : List ℕ) (body : Option (List ℕ))
      (c : Call)
      → route matches T U H r method path body ≡ handled c
      → (length c.body ≤ r.max_body_size)
        × (body ≡ some c.body)
        × ((lookup_path : List ℕ) × (strip_prefix r.prefix_str path ≡ some lookup_path)
            × (resolve matches T U H r.inner method lookup_path ≡ hit c.index))
  unfolding route
  route-handled r method path body c e = elim (Option-cases (strip_prefix r.prefix_str path)) [
    | inl outside ↦ absurd (ground arith)
    | inr (p, inside) ↦
        let (a, b, d) =
          dispatch-within r (resolve matches T U H r.inner method p) body c
            (rw (inside, route) at e) in
        (a, b, (p, inside, d))
  ]

  dispatch-dispatch_bytes :
      (r : Router matches T U H) (o : LookupOutcome matches T U H) (bytes : List ℕ)
      → length bytes ≤ r.max_body_size
      → r.has_fallback ≡ false
      → dispatch matches T U H r o (some bytes) ≡ dispatch_bytes matches T U H r o bytes
  unfolding collect_body_limited
  dispatch-dispatch_bytes r (hit i) bytes h f = ground arith
  dispatch-dispatch_bytes r method_not_allowed bytes h f = refl
  dispatch-dispatch_bytes r not_found bytes h f = rw f refl

  -- Without a fallback service, and for a body within the limit, the two ways in answer alike.
  pub route-route_with_bytes :
      (r : Router matches T U H) (method : Method) (path bytes : List ℕ)
      → length bytes ≤ r.max_body_size
      → r.has_fallback ≡ false
      → route matches T U H r method path (some bytes)
        ≡ route_with_bytes matches T U H r method path bytes
  unfolding route route_with_bytes
  route-route_with_bytes r method path bytes h f =
      elim (Option-cases (strip_prefix r.prefix_str path)) [
        | inl outside ↦ rw (outside, route, route_with_bytes, f) refl
        | inr (p, inside) ↦
            rw (inside, route, route_with_bytes)
              (dispatch-dispatch_bytes r (resolve matches T U H r.inner method p) bytes h f)
      ]
