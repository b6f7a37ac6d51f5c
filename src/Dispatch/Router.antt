-- ===== src/Dispatch/Router.antt =====
-- `GrpcRouter` of grpc_dispatch.rs: the table of methods and their middleware. A future is its response,
-- and whether it is ready within a time (in nanoseconds); a handler is a function of the parts and the
-- body.
pub mod Routes
pub mod Table
use Prim.Native.String.{String}
use typeway.Base.{
  ℕ, zero, suc, Bool, true, false, not, ◌&&◌, ◌⊎◌, inl, inr, List, [], ◌∷◌, ◌++◌, map, Option, none,
  some, find, ltb, if◌then◌else◌,
}
use typeway.Base.Options.{◌>>=◌}
use typeway.Binary.Json.{Json}
use typeway.Router.Pattern.{bytes_eq}
use typeway.Router.Table.{RouteEntry, find_handler_by_pattern}
use typeway.Router.Method.{Method}
use typeway.Grpc.Framing as Framing
use typeway.Grpc.Framing.{decode_grpc_frame}
use typeway.Grpc.Parse.Chars.{is_empty}
use typeway.Grpc.Status.{invalid_argument, deadline_exceeded, unimplemented}
use typeway.Grpc.Timeout as Timeout
use typeway.Grpc.Timeout.{parse_grpc_timeout}
use typeway.Transcode.{grpc_content_type, is_proto_binary_content_type}
use typeway.Dispatch.Body.{ascii, GrpcStatus}
use typeway.Dispatch.Stream.{or_empty}
use typeway.Dispatch.Health.{
  HealthService, handle_health, is_health_path, is_reflection_path, prefix_of,
}
use typeway.Dispatch.Synthetic.{
  Http, Headers, Parts, GrpcMethodDescriptor, placeholder_count, build_synthetic_request,
  build_synthetic_request_raw,
}
use typeway.Dispatch.Wrap.{
  Body, full, Response, Transcoder, grpc_json_response, wrap_response_as_grpc, grpc_error_response,
  dispatch_direct,
}

pub record Future : Type 0 where
  pub response : Response
  pub within : ℕ → Bool

module _ (W : Http) where
  abbrev pub Handler : Type 0
  Handler = Parts W → List ℕ → Future

  abbrev pub GrpcMiddleware : Type 0
  GrpcMiddleware = Parts W → List ℕ → (Parts W × List ℕ) ⊎ Response

  pub data GrpcRouteEntry : Type 0 where
    standard :
        (handler : Handler) (method_descriptor : GrpcMethodDescriptor)
        (middleware : List GrpcMiddleware)
        → GrpcRouteEntry
    direct : (handler : List ℕ → List ℕ ⊎ GrpcStatus) → GrpcRouteEntry

  -- The `HashMap` of the entries, the last one that was put in first.
  pub record GrpcRouter : Type 0 where
    pub handlers : List (List ℕ × GrpcRouteEntry)
    pub state_injector : Option (W.Extensions → W.Extensions)

  unfoldable pub lookup_path : List ℕ → List (List ℕ × GrpcRouteEntry) → Option GrpcRouteEntry
  lookup_path path [] = none
  lookup_path path ((key, entry) ∷ entries) =
      if bytes_eq key path then some entry else lookup_path path entries

  -- `get_mut`: the entry that a lookup finds is written.
  unfoldable pub update_path :
      List ℕ
      → (GrpcRouteEntry → GrpcRouteEntry)
      → List (List ℕ × GrpcRouteEntry)
      → List (List ℕ × GrpcRouteEntry)
  update_path path f [] = []
  update_path path f ((key, entry) ∷ entries) =
      if bytes_eq key path
      then (key, f entry) ∷ entries
      else (key, entry) ∷ update_path path f entries

  -- The loop of `from_router`.
  unfoldable pub register :
      (find_handler : Method → List ℕ → Option Handler)
      → List GrpcMethodDescriptor
      → List (List ℕ × GrpcRouteEntry)
      → List (List ℕ × GrpcRouteEntry)
  register find_handler [] entries = entries
  register find_handler (m ∷ methods) entries =
      register find_handler methods (elim (find_handler m.http_method m.rest_path) [
        | some handler ↦ (m.full_path, standard handler m []) ∷ entries
        | none ↦ entries
      ])

  -- From the routes of the REST router.
  unfoldable pub from_router :
      List (RouteEntry Handler)
      → Option (W.Extensions → W.Extensions)
      → List GrpcMethodDescriptor
      → GrpcRouter
  unfolding register find_handler_by_pattern
  from_router routes state_injector methods = record {
    handlers = register (find_handler_by_pattern routes) methods [];
    state_injector = state_injector;
  }

  unfoldable pub add_direct_handler :
      List ℕ → (List ℕ → List ℕ ⊎ GrpcStatus) → GrpcRouter → GrpcRouter
  add_direct_handler path handler r = record r { handlers = (path, direct handler) ∷ r.handlers }

  abbrev pub push_middleware : GrpcMiddleware → GrpcRouteEntry → GrpcRouteEntry
  push_middleware mw (standard handler desc middleware) =
      standard handler desc (middleware ++ mw ∷ [])
  push_middleware mw (direct handler) = direct handler

  unfoldable pub add_middleware : List ℕ → GrpcMiddleware → GrpcRouter → GrpcRouter
  unfolding update_path
  add_middleware path mw r = record r {
    handlers = update_path path (push_middleware mw) r.handlers;
  }

  -- The loop over the middleware.
  unfoldable pub run_middleware :
      List GrpcMiddleware → Parts W → List ℕ → (Parts W × List ℕ) ⊎ Response
  run_middleware [] parts body = inl (parts, body)
  run_middleware (mw ∷ mws) parts body = elim (mw parts body) [
    | inl (parts', body') ↦ run_middleware mws parts' body'
    | inr response ↦ inr response
  ]
