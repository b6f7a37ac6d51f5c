-- ===== src/Router/Table/Build.antt =====
-- The table that a program's registrations build.
use typeway.Base.{ℕ, ◌≡◌, sym, ◌∙◌, Bool, List, [], ◌∷◌, ◌++◌, append_assoc, append-nil}
use typeway.Router.Matchit.{Matchit}
use typeway.Router.Table.{RouteEntry, RouterInner, new, add_route}
use typeway.Router.Table.Invariant.{IsValid, add_route-IsValid, new-IsValid}

module _ (matches : List ℕ → List ℕ → Bool) (T : Matchit matches ℕ) (U : Matchit matches (Unit {0}))
    (H : Type 0) where
  -- The table after the registration of some more routes, in order.
  unfoldable pub build_from :
      List (RouteEntry H) → RouterInner matches T U H → RouterInner matches T U H
  build_from [] inner = inner
  build_from (e ∷ es) inner = build_from es (add_route matches T U H e inner)

  -- The table of a program that registers these routes.
  unfoldable pub build : List (RouteEntry H) → RouterInner matches T U H
  unfolding build_from
  build es = build_from es (new matches T U H)

  build_from-IsValid :
      (es : List (RouteEntry H)) (inner : RouterInner matches T U H)
      → IsValid matches T U H inner
      → IsValid matches T U H (build_from es inner)
  unfolding build_from
  build_from-IsValid [] inner v = v
  build_from-IsValid (e ∷ es) inner v =
      build_from-IsValid es (add_route matches T U H e inner)
        (add_route-IsValid matches T U H e inner v)

  pub build-IsValid : (es : List (RouteEntry H)) → IsValid matches T U H (build es)
  unfolding build
  build-IsValid es = build_from-IsValid es (new matches T U H) (new-IsValid matches T U H)

  build_from-routes :
      (es : List (RouteEntry H)) (inner : RouterInner matches T U H)
      → (build_from es inner).routes ≡ inner.routes ++ es
  unfolding build_from
  build_from-routes [] inner = sym (append-nil inner.routes)
  build_from-routes (e ∷ es) inner =
      build_from-routes es (add_route matches T U H e inner)
      ∙ unfold add_route in append_assoc inner.routes (e ∷ []) es

  -- No route is dropped: the table holds them all, in the order of registration.
  pub build-routes : (es : List (RouteEntry H)) → (build es).routes ≡ es
  unfolding build
  build-routes es = build_from-routes es (new matches T U H)
