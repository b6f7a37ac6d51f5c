-- ===== src/Router/Table/Selects.antt =====
-- What the outcomes of resolution say about the routes that were registered.
use typeway.Base.{
  ℕ, ◌≡◌, ◌≢◌, inl, inr, ap, subst, ◌∙◌, Bool, true, false, List, Option, none, some, get_elem?,
  any, Bool-cases, Option-cases, arith,
}
use typeway.Router.Matchit.{Matchit}
use typeway.Router.Method.{
  Method, extension, MethodIndex, bucket, all_buckets, method_bit, bucket_of_bit,
}
use typeway.Router.Pattern.{segments}
use typeway.Router.Table.{
  RouteEntry, is_some, RouterInner, lookup_in_bucket, LookupOutcome, hit, method_not_allowed,
  resolve_miss, resolve,
}
use typeway.Router.Table.Build.{build, build-IsValid, build-routes}
use typeway.Router.Table.Refines.{lookup, any_lookup, Selected, lookup-Selected}

some_bucket :
    {B : Type 0} (p : B → Bool) (ix : MethodIndex B)
    → any p (all_buckets ix) ≡ true
    → (m : Method) × (p (bucket ix m) ≡ true)
unfolding bucket
some_bucket p ix h = elim (Bool-cases (p ix.get)) [
  | inl e ↦ (Method.get, e)
  | inr e1 ↦ elim (Bool-cases (p ix.post)) [
    | inl e ↦ (Method.post, e)
    | inr e2 ↦ elim (Bool-cases (p ix.put)) [
      | inl e ↦ (Method.put, e)
      | inr e3 ↦ elim (Bool-cases (p ix.delete)) [
        | inl e ↦ (Method.delete, e)
        | inr e4 ↦ elim (Bool-cases (p ix.patch)) [
          | inl e ↦ (Method.patch, e)
          | inr e5 ↦ elim (Bool-cases (p ix.head)) [
            | inl e ↦ (Method.head, e)
            | inr e6 ↦ elim (Bool-cases (p ix.options)) [
              | inl e ↦ (Method.options, e)
              | inr e7 ↦ (extension "", ground arith)
            ]
          ]
        ]
      ]
    ]
  ]
]

not_both : (o : Option ℕ) (i : ℕ) → o ≡ some i → o ≡ none → ⊥
not_both o i p q = cc

module _ (matches : List ℕ → List ℕ → Bool) (T : Matchit matches ℕ) (U : Matchit matches (Unit {0}))
    (H : Type 0) where
  resolve_miss-ne-hit :
      (inner : RouterInner matches T U H) (m : Method) (path : List ℕ) (i : ℕ)
      → resolve_miss matches T U H inner m path ≢ hit i
  unfolding resolve_miss
  resolve_miss-ne-hit inner m path i e = ground arith

  resolve_miss-allowed :
      (inner : RouterInner matches T U H) (m : Method) (path : List ℕ)
      → resolve_miss matches T U H inner m path ≡ method_not_allowed
      → any_lookup matches T U H inner path ≡ true
  unfolding resolve_miss
  resolve_miss-allowed inner m path e = ground arith

  -- The route that a hit names.
  pub record RouteOf (es : List (RouteEntry H)) (m : Method) (path : List ℕ) (i : ℕ) : Type 0 where
    pub route : RouteEntry H
    pub found : get_elem? es i ≡ some route
    pub same_bucket : method_bit route.method ≡ method_bit m
    pub accepted : route.match_fn (segments path) ≡ true

  of_Selected :
      (es : List (RouteEntry H)) (m : Method) (path : List ℕ) (i : ℕ)
      → Selected matches T U H (build matches T U H es) m path i
      → RouteOf es m path i
  of_Selected es m path i s = record {
    route = s.route;
    found = subst (λ l. get_elem? l i ≡ some s.route) (build-routes matches T U H es) s.found;
    same_bucket = s.same_bucket;
    accepted = s.accepted;
  }

  -- A hit is the index of a registered route, of the request's method or else of a method that shares
  -- its bucket, whose match function accepts the segments of the path.
  pub resolve-build-hit :
      (es : List (RouteEntry H)) (method : Method) (path : List ℕ) (i : ℕ)
      → resolve matches T U H (build matches T U H es) method path ≡ hit i
      → RouteOf es method path i
  unfolding resolve
  resolve-build-hit es method path i e =
      let inner : RouterInner matches T U H = build matches T U H es in
      elim (Option-cases (lookup matches T U H inner method path)) [
        | inl missed ↦ absurd (resolve_miss-ne-hit inner method path i (rw (missed, resolve) at e))
        | inr (j, found) ↦
            let q : ◌≡◌ {A = LookupOutcome matches T U H} (hit j) (hit i) =
              rw (found, resolve) at e in
            let same : j ≡ i = cc in
            of_Selected es method path i (
              lookup-Selected matches T U H inner method path i (build-IsValid matches T U H es)
                (rw (← same) found))
      ]

  -- 405 is answered only where a registered route of another method accepts the path, and the
  -- request's own method has none that is found.
  pub resolve-build-method_not_allowed :
      (es : List (RouteEntry H)) (method : Method) (path : List ℕ)
      → resolve matches T U H (build matches T U H es) method path ≡ method_not_allowed
      → (lookup matches T U H (build matches T U H es) method path ≡ none)
        × ((m : Method) × (i : ℕ) × (method_bit m ≢ method_bit method) × RouteOf es m path i)
  unfolding resolve
  resolve-build-method_not_allowed es method path e =
      let inner : RouterInner matches T U H = build matches T U H es in
      elim (Option-cases (lookup matches T U H inner method path)) [
        | inl missed ↦
            let some_found = resolve_miss-allowed inner method path (rw (missed, resolve) at e) in
            let (m, p) =
              some_bucket (λ b. is_some (lookup_in_bucket matches T U H b inner.routes path))
                inner.method_index some_found in
            elim (Option-cases (lookup matches T U H inner m path)) [
              | inl nothing ↦ let q : ◌≡◌ {A = Bool} false true = rw nothing at p in cc
              | inr (i, found) ↦ (
                missed,
                (
                  m,
                  i,
                  (λ same. not_both (lookup matches T U H inner m path) i found (
                      ap (λ b. lookup_in_bucket matches T U H b inner.routes path)
                        (bucket_of_bit inner.method_index m method same)
                      ∙ missed)),
                  of_Selected es m path i (
                      lookup-Selected matches T U H inner m path i (build-IsValid matches T U H es)
                        found),
                ),
              )
            ]
        | inr (j, found) ↦
            let q : ◌≡◌ {A = LookupOutcome matches T U H} (hit j) method_not_allowed =
              rw (found, resolve) at e in
            cc
      ]
