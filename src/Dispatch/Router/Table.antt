-- ===== src/Dispatch/Router/Table.antt =====
-- The table of methods that `from_router` builds, and what middleware changes in it.
use mathlib.Core.Option
use typeway.Base.{
  ℕ, ◌≡◌, ◌≢◌, refl, sym, ap, ◌∙◌, inl, inr, true, false, List, [], ◌∷◌, Option, none, some,
  Bool-cases, Option-cases, if◌then◌else◌, Bool, ◌++◌, append-nil, append_assoc, arith,
}
use typeway.Router.Pattern.{bytes_eq}
use typeway.Router.Table.{RouteEntry, find_handler_by_pattern}
use typeway.Router.Table.Invariant.{bytes_eq→eq}
use typeway.Router.Method.{Method}
use typeway.Dispatch.Synthetic.{Http, GrpcMethodDescriptor}
use typeway.Dispatch.Router.Routes.{
  bytes_eq_refl, apart_pattern, FirstRoute, find_handler-FirstRoute,
}
use typeway.Dispatch.Router.{
  Handler, GrpcMiddleware, GrpcRouteEntry, standard, direct, lookup_path, update_path, register,
  from_router, push_middleware, add_middleware, GrpcRouter,
}

apart_lem :
    (key path other : List ℕ)
    → bytes_eq key other ≡ true
    → bytes_eq key path ≡ false
    → bytes_eq path other ≡ false
apart_lem key path other q e = elim (Bool-cases (bytes_eq path other)) [
  | inl r ↦
      let same : key ≡ path = bytes_eq→eq key other q ∙ sym (bytes_eq→eq path other r) in
      let found : bytes_eq key path ≡ true = rw same (bytes_eq_refl path) in cc
  | inr r ↦ r
]

module _ (W : Http) where
  module _ (find_handler : Method → List ℕ → Option (Handler W)) where
    abbrev served : GrpcMethodDescriptor → Option (GrpcRouteEntry W)
    served m = elim (find_handler m.http_method m.rest_path) [
      | some handler ↦ some (standard handler m [])
      | none ↦ none
    ]

    abbrev or_else :
        Option (GrpcRouteEntry W) → Option (GrpcRouteEntry W) → Option (GrpcRouteEntry W)
    or_else (some e) o = some e
    or_else none o = o

    -- The last method of the service with the path, of those that have a REST handler.
    unfoldable pub last_served : List ℕ → List GrpcMethodDescriptor → Option (GrpcRouteEntry W)
    last_served path [] = none
    last_served path (m ∷ methods) =
        or_else (last_served path methods) (if bytes_eq m.full_path path then served m else none)

    lookup-register :
        (path : List ℕ) (methods : List GrpcMethodDescriptor)
        (entries : List (List ℕ × GrpcRouteEntry W))
        → lookup_path W path (register W find_handler methods entries)
          ≡ or_else (last_served path methods) (lookup_path W path entries)
    unfolding register last_served lookup_path
    lookup-register path [] entries = refl
    lookup-register path (m ∷ methods) entries =
        elim (Option-cases (find_handler m.http_method m.rest_path)) [
          | inl e ↦ rw e (lookup-register path methods entries ∙ ground arith)
          | inr (h, e) ↦ rw e (
              lookup-register path methods ((m.full_path, standard h m []) ∷ entries)
              ∙ ground arith)
        ]

    built :
        (path : List ℕ) (methods : List GrpcMethodDescriptor)
        → lookup_path W path (register W find_handler methods []) ≡ last_served path methods
    unfolding lookup_path
    built path methods = lookup-register path methods [] ∙ ground arith

  lookup-update_path :
      (path other : List ℕ) (f : GrpcRouteEntry W → GrpcRouteEntry W)
      (entries : List (List ℕ × GrpcRouteEntry W))
      → lookup_path W other (update_path W path f entries) ≡ (
          if bytes_eq path other
          then Option.map f (lookup_path W other entries)
          else lookup_path W other entries)
  unfolding lookup_path update_path
  lookup-update_path path other f [] = ground arith
  lookup-update_path path other f ((key, entry) ∷ entries) = elim (Bool-cases (bytes_eq key path)) [
    | inl e ↦
        rw (e, ap (λ (k : List ℕ). bytes_eq k other) (bytes_eq→eq key path e))
          (elim (Bool-cases (bytes_eq path other)) [ inl q ↦ rw q refl | inr q ↦ rw q refl ])
    | inr e ↦ rw e (elim (Bool-cases (bytes_eq key other)) [
      | inl q ↦
          let apart : bytes_eq path other ≡ false = apart_lem key path other q e in
          rw (q, apart) refl
      | inr q ↦ rw q (lookup-update_path path other f entries)
    ])
  ]

  -- The last method with a path for which there is a route, and the handler.
  pub data Serves (routes : List (RouteEntry (Handler W))) (path : List ℕ)
      : List GrpcMethodDescriptor → Option (GrpcMethodDescriptor × Handler W) → Type 0 where
    no_method : Serves routes path [] none
    later :
        (m : GrpcMethodDescriptor) (methods : List GrpcMethodDescriptor)
        {found : GrpcMethodDescriptor × Handler W}
        → Serves routes path methods (some found)
        → Serves routes path (m ∷ methods) (some found)
    other_path :
        (m : GrpcMethodDescriptor) (methods : List GrpcMethodDescriptor)
        → Serves routes path methods none
        → m.full_path ≢ path
        → Serves routes path (m ∷ methods) none
    without_route :
        (m : GrpcMethodDescriptor) (methods : List GrpcMethodDescriptor)
        → Serves routes path methods none
        → FirstRoute W m.http_method m.rest_path routes none
        → Serves routes path (m ∷ methods) none
    this_method :
        (m : GrpcMethodDescriptor) (methods : List GrpcMethodDescriptor) (handler : Handler W)
        → Serves routes path methods none
        → m.full_path ≡ path
        → FirstRoute W m.http_method m.rest_path routes (some handler)
        → Serves routes path (m ∷ methods) (some (m, handler))

  -- The entry of a method that has this middleware.
  abbrev pub entry_with :
      List (GrpcMiddleware W)
      → Option (GrpcMethodDescriptor × Handler W)
      → Option (GrpcRouteEntry W)
  entry_with mws none = none
  entry_with mws (some (m, handler)) = some (standard handler m mws)

  -- Middleware added for a path, one after the other.
  abbrev pub add_all : List ℕ → List (GrpcMiddleware W) → GrpcRouter W → GrpcRouter W
  add_all path [] r = r
  add_all path (mw ∷ mws) r = add_all path mws (add_middleware W path mw r)

  last_served-Serves :
      (routes : List (RouteEntry (Handler W))) (path : List ℕ) (methods : List GrpcMethodDescriptor)
      → (o : Option (GrpcMethodDescriptor × Handler W)) × Serves routes path methods o
        × (last_served (find_handler_by_pattern routes) path methods ≡ entry_with [] o)
  unfolding last_served
  last_served-Serves routes path [] = (none, no_method, refl)
  last_served-Serves routes path (m ∷ methods) = by_later (last_served-Serves routes path methods)
    where
      find_handler : Method → List ℕ → Option (Handler W)
      find_handler = find_handler_by_pattern routes

      Found : Type 0
      Found =
          (o : Option (GrpcMethodDescriptor × Handler W)) × Serves routes path (m ∷ methods) o
          × (or_else find_handler (last_served find_handler path methods)
                (if bytes_eq m.full_path path then served find_handler m else none)
              ≡ entry_with [] o)

      served_is :
          (o : Option (Handler W))
          → find_handler m.http_method m.rest_path ≡ o
          → served find_handler m ≡ (elim o as (λ _. Option (GrpcRouteEntry W)) [
            | some handler ↦ some (standard handler m [])
            | none ↦ none
          ])
      served_is o f =
          ap
            (λ x. elim x as (λ _. Option (GrpcRouteEntry W)) [
              | some handler ↦ some (standard handler m [])
              | none ↦ none
            ])
            f

      by_later :
          (o : Option (GrpcMethodDescriptor × Handler W)) × Serves routes path methods o
            × (last_served find_handler path methods ≡ entry_with [] o)
          → Found
      by_later (some found, s, e) = (some found, later m methods s, rw e refl)
      by_later (none, s, e) = elim (Bool-cases (bytes_eq m.full_path path)) [
        | inr q ↦ (none, other_path m methods s (apart_pattern m.full_path path q), rw (e, q) refl)
        | inl q ↦
            let first = find_handler-FirstRoute W routes m.http_method m.rest_path in
            elim (Option-cases (find_handler m.http_method m.rest_path)) [
              | inl f ↦
                  (none, without_route m methods s (rw f at first), rw (e, q) (served_is none f))
              | inr (h, f) ↦ (
                some (m, h),
                this_method m methods h s (bytes_eq→eq m.full_path path q) (rw f at first),
                rw (e, q) (served_is (some h) f),
              )
            ]
      ]

  abbrev append_entry : List (GrpcMiddleware W) → GrpcRouteEntry W → GrpcRouteEntry W
  append_entry mws (standard handler desc middleware) = standard handler desc (middleware ++ mws)
  append_entry mws (direct handler) = direct handler

  append_nothing : (o : Option (GrpcRouteEntry W)) → Option.map (append_entry []) o ≡ o
  append_nothing none = refl
  append_nothing (some (standard handler desc middleware)) =
      ap (λ mws. some (standard handler desc mws)) (append-nil middleware)
  append_nothing (some (direct handler)) = refl

  append_more :
      (mw : GrpcMiddleware W) (mws : List (GrpcMiddleware W)) (o : Option (GrpcRouteEntry W))
      → Option.map (append_entry mws) (Option.map (push_middleware W mw) o)
        ≡ Option.map (append_entry (mw ∷ mws)) o
  append_more mw mws none = refl
  append_more mw mws (some (standard handler desc middleware)) =
      ap (λ all. some (standard handler desc all)) (append_assoc middleware (mw ∷ []) mws)
  append_more mw mws (some (direct handler)) = refl

  lookup-add_all :
      (path other : List ℕ) (mws : List (GrpcMiddleware W)) (r : GrpcRouter W)
      → lookup_path W other (add_all path mws r).handlers ≡ (
          if bytes_eq path other
          then Option.map (append_entry mws) (lookup_path W other r.handlers)
          else lookup_path W other r.handlers)
  lookup-add_all path other [] r = elim (Bool-cases (bytes_eq path other)) [
    | inl e ↦ rw e (sym (append_nothing (lookup_path W other r.handlers)))
    | inr e ↦ rw e refl
  ]
  lookup-add_all path other (mw ∷ mws) r =
      let step = lookup-update_path path other (push_middleware W mw) r.handlers in
      lookup-add_all path other mws (add_middleware W path mw r)
      ∙ (unfold add_middleware in
          elim (Bool-cases (bytes_eq path other)) [
            | inl e ↦
                let step' = rw e at step in
                rw (e, step') (append_more mw mws (lookup_path W other r.handlers))
            | inr e ↦ let step' = rw e at step in rw (e, step') refl
          ])

  with_middleware :
      (b : Bool) (mws : List (GrpcMiddleware W)) (o : Option (GrpcMethodDescriptor × Handler W))
      → (if b then Option.map (append_entry mws) (entry_with [] o) else entry_with [] o)
        ≡ entry_with (if b then mws else []) o
  with_middleware true mws none = refl
  with_middleware true mws (some (m, h)) = refl
  with_middleware false mws o = refl

  -- The table of a service is built from its methods and the router's routes, and is then given
  -- middleware for a path, one after the other. A lookup of any path finds the last method with that
  -- path for whose HTTP method and pattern there is a route, with the handler of the first such route;
  -- and for the path with the middleware it finds that middleware in its order, for every other
  -- path none.
  pub lookup-add_middleware :
      (routes : List (RouteEntry (Handler W))) (injector : Option (W.Extensions → W.Extensions))
      (methods : List GrpcMethodDescriptor) (path other : List ℕ) (mws : List (GrpcMiddleware W))
      → (o : Option (GrpcMethodDescriptor × Handler W)) × Serves routes other methods o
        × (lookup_path W other (add_all path mws (from_router W routes injector methods)).handlers
            ≡ entry_with (if bytes_eq path other then mws else []) o)
  unfolding from_router
  lookup-add_middleware routes injector methods path other mws =
      let find_handler = find_handler_by_pattern routes in
      let (o, s, e) = last_served-Serves routes other methods in
      let plain = built find_handler other methods ∙ e in
      let found = lookup-add_all path other mws (from_router W routes injector methods) in
      (o, s, rw plain at found ∙ with_middleware (bytes_eq path other) mws o)
