-- ===== src/Dispatch/Health.antt =====
-- typeway-grpc/src/health.rs: the flag that the server's clones of the service share, and its answer.
use typeway.Base.{ℕ, Bool, true, false, ◌&&◌, ◌||◌, List, [], ◌∷◌, ◌++◌, ◌==◌}
use typeway.Router.Pattern.{bytes_eq}
use typeway.Dispatch.Body.{ascii}

-- What the `AtomicBool` holds; each clone of the service reads and writes this one value.
pub record HealthService : Type 0 where
  pub is_serving : Bool

pub data HealthStatus : Type 0 where
  serving not_serving : HealthStatus

unfoldable pub new_health : HealthService
new_health = record { is_serving = true }

unfoldable pub check : HealthService → HealthStatus
check s = elim (s.is_serving) [ true ↦ serving | false ↦ not_serving ]

unfoldable pub set_not_serving : HealthService → HealthService
set_not_serving s = record { is_serving = false }

unfoldable pub set_serving : HealthService → HealthService
set_serving s = record { is_serving = true }

unfoldable pub status_text : HealthStatus → List ℕ
status_text serving = ascii "SERVING"
status_text not_serving = ascii "NOT_SERVING"

-- `format!("{{\"status\":\"{}\"}}", status)`: 34 is the quotation mark.
unfoldable pub handle_health : HealthService → List ℕ
unfolding check status_text
handle_health s =
    b'{' ∷ 34 ∷ (ascii "status" ++ 34 ∷ b':' ∷ 34 ∷ (status_text (check s) ++ 34 ∷ b'}' ∷ []))

abbrev pub prefix_of : List ℕ → List ℕ → Bool
prefix_of [] path = true
prefix_of (p ∷ pattern) [] = false
prefix_of (p ∷ pattern) (c ∷ path) = p == c && prefix_of pattern path

-- `contains`
abbrev pub contains_text : List ℕ → List ℕ → Bool
contains_text pattern [] = prefix_of pattern []
contains_text pattern (c ∷ t) = prefix_of pattern (c ∷ t) || contains_text pattern t

unfoldable pub is_health_path : List ℕ → Bool
is_health_path path =
    bytes_eq path (ascii "/grpc.health.v1.Health/Check") || prefix_of (ascii "/grpc.health.v1") path

-- `ReflectionService::is_reflection_path` of typeway-grpc/src/reflection.rs
unfoldable pub is_reflection_path : List ℕ → Bool
is_reflection_path path =
    bytes_eq path (ascii "/grpc.reflection.v1alpha.ServerReflection/ServerReflectionInfo")
    || prefix_of (ascii "/grpc.reflection.v1alpha") path
