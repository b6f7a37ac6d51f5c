-- ===== src/Dispatch/Router/Routes.antt =====
-- Which handler `find_handler_by_pattern` of router.rs finds for the gRPC server.
use text.Mathlib.TextEquality.{eq_iff}
use text.Mathlib.TextPositions.{eq_refl}
use typeway.Base.{
  ℕ, ◌≡◌, ◌≢◌, refl, ap, inl, inr, true, false, List, [], ◌∷◌, Option, none, some, Bool-cases,
  eq→==,
}
use typeway.Router.Pattern.{bytes_eq}
use typeway.Router.Table.{RouteEntry, find_handler_by_pattern}
use typeway.Router.Table.Invariant.{bytes_eq→eq}
use typeway.Router.Method.{Method, extension, method_bit, method_eq}
use typeway.Dispatch.Synthetic.{Http}
use typeway.Dispatch.Router.{Handler}

pub bytes_eq_refl : (s : List ℕ) → bytes_eq s s ≡ true
bytes_eq_refl [] = refl
bytes_eq_refl (a ∷ s) = rw (eq→== a a refl, bytes_eq_refl s) refl

method_eq→eq : (m n : Method) → method_eq m n ≡ true → m ≡ n
unfolding method_eq method_bit
method_eq→eq Method.get Method.get e = refl
method_eq→eq Method.get _ e = cc
method_eq→eq Method.post Method.post e = refl
method_eq→eq Method.post _ e = cc
method_eq→eq Method.put Method.put e = refl
method_eq→eq Method.put _ e = cc
method_eq→eq Method.delete Method.delete e = refl
method_eq→eq Method.delete _ e = cc
method_eq→eq Method.patch Method.patch e = refl
method_eq→eq Method.patch _ e = cc
method_eq→eq Method.head Method.head e = refl
method_eq→eq Method.head _ e = cc
method_eq→eq Method.options Method.options e = refl
method_eq→eq Method.options _ e = cc
method_eq→eq (extension a) (extension b) e = ap extension ((eq_iff a b).0 e)
method_eq→eq (extension a) _ e = cc

method_eq_refl : (m : Method) → method_eq m m ≡ true
unfolding method_eq method_bit
method_eq_refl Method.get = refl
method_eq_refl Method.post = refl
method_eq_refl Method.put = refl
method_eq_refl Method.delete = refl
method_eq_refl Method.patch = refl
method_eq_refl Method.head = refl
method_eq_refl Method.options = refl
method_eq_refl (extension a) = eq_refl a

method_eq-apart : (m n : Method) → method_eq m n ≡ false → m ≢ n
method_eq-apart m n f e = let same : method_eq m n ≡ true = rw e (method_eq_refl n) in cc

pub apart_pattern : (s t : List ℕ) → bytes_eq s t ≡ false → s ≢ t
apart_pattern s t f e = let same : bytes_eq s t ≡ true = rw e (bytes_eq_refl t) in cc

module _ (W : Http) where
  -- The handler of the first route with a method and a pattern.
  pub data FirstRoute (m : Method) (pattern : List ℕ)
      : List (RouteEntry (Handler W)) → Option (Handler W) → Type 0 where
    no_route : FirstRoute m pattern [] none
    this_route :
        (e : RouteEntry (Handler W)) (routes : List (RouteEntry (Handler W)))
        → e.method ≡ m
        → e.pattern ≡ pattern
        → FirstRoute m pattern (e ∷ routes) (some e.handler)
    other_method :
        (e : RouteEntry (Handler W)) (routes : List (RouteEntry (Handler W)))
        {o : Option (Handler W)}
        → e.method ≢ m
        → FirstRoute m pattern routes o
        → FirstRoute m pattern (e ∷ routes) o
    other_pattern :
        (e : RouteEntry (Handler W)) (routes : List (RouteEntry (Handler W)))
        {o : Option (Handler W)}
        → e.pattern ≢ pattern
        → FirstRoute m pattern routes o
        → FirstRoute m pattern (e ∷ routes) o

  pub find_handler-FirstRoute :
      (routes : List (RouteEntry (Handler W))) (m : Method) (pattern : List ℕ)
      → FirstRoute m pattern routes (find_handler_by_pattern routes m pattern)
  unfolding find_handler_by_pattern
  find_handler-FirstRoute [] m pattern = no_route
  find_handler-FirstRoute (e ∷ routes) m pattern = elim (Bool-cases (method_eq e.method m)) [
    | inl same ↦ elim (Bool-cases (bytes_eq e.pattern pattern)) [
      | inl q ↦
          rw (same, q)
            (this_route e routes (method_eq→eq e.method m same) (bytes_eq→eq e.pattern pattern q))
      | inr q ↦
          rw (same, q)
            (other_pattern e routes (apart_pattern e.pattern pattern q)
              (find_handler-FirstRoute routes m pattern))
    ]
    | inr apart ↦ rw apart (
        other_method e routes (method_eq-apart e.method m apart)
          (find_handler-FirstRoute routes m pattern))
  ]
