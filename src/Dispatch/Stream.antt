-- ===== src/Dispatch/Stream.antt =====
-- The streamed bodies: `GrpcStreamBody` of typeway-grpc/src/trailer_body.rs and `GrpcStream` of
-- typeway-server/src/grpc_stream.rs.
pub mod Ends
use typeway.Base.{ℕ, Bool, true, false, List, [], ◌∷◌, Option, none, some, if◌then◌else◌}
use typeway.Router.Pattern.{show}
use typeway.Grpc.Framing.{encode_grpc_frame}
use typeway.Grpc.Parse.Chars.{is_empty}
use typeway.Grpc.Status.{as_i32}
use typeway.Dispatch.Body.{
  GrpcStatus, Trailers, Frame, data_frame, trailers_frame, status_to_trailers, ok_status,
}

pub data Poll {ℓ} (A : Type ℓ) : Type ℓ where
  pending : Poll A
  ready : A → Poll A

pub record GrpcStreamBody : Type 0 where
  pub status : GrpcStatus
  pub done : Bool

unfoldable pub new_stream : GrpcStreamBody
new_stream = record { status = ok_status; done = false }

unfoldable pub stream_with_status : GrpcStatus → GrpcStreamBody
stream_with_status status = record { status = status; done = false }

abbrev pub receive :
    (List ℕ → Bool) → GrpcStreamBody → Poll (Option (List ℕ)) → Poll (Option Frame) × GrpcStreamBody
receive header_value s pending = (pending, s)
receive header_value s (ready (some bytes)) = (ready (some (data_frame bytes)), s)
receive header_value s (ready none) = (
  ready (some (trailers_frame (status_to_trailers header_value s.status))),
  record s { done = true },
)

-- One poll, given what the channel's receiver answers.
unfoldable pub poll_stream :
    (List ℕ → Bool) → GrpcStreamBody → Poll (Option (List ℕ)) → Poll (Option Frame) × GrpcStreamBody
unfolding status_to_trailers
poll_stream header_value s received =
    if s.done then (ready none, s) else receive header_value s received

unfoldable pub stream_is_end : GrpcStreamBody → Bool
stream_is_end s = s.done

module _ (header_value : List ℕ → Bool) where
  -- `build_trailers` of grpc_stream.rs, which does not encode the message
  unfoldable pub build_trailers : GrpcStatus → Trailers
  build_trailers status = record {
    grpc_status = show (as_i32 status.status_code);
    grpc_message =
        if is_empty status.message
        then none
        else if header_value status.message
        then some status.message
        else none;
  }

-- What the sender of a `GrpcStream` puts into the channel.
pub data Sent (T : Type 0) : Type 0 where
  item : T → Sent T
  failure : GrpcStatus → Sent T

-- `unwrap_or_default` of the bytes of a message
abbrev pub or_empty : Option (List ℕ) → List ℕ
or_empty none = []
or_empty (some bytes) = bytes

module _ {T : Type 0} (header_value : List ℕ → Bool) (to_vec : T → Option (List ℕ)) where
  -- One step of the `unfold`, from the flag `done` and `recv`: the frame and the new flag.
  unfoldable pub step : Bool → Option (Sent T) → Option (Frame × Bool)
  unfolding build_trailers encode_grpc_frame
  step true received = none
  step false (some (item x)) = some (data_frame (encode_grpc_frame (or_empty (to_vec x))), false)
  step false (some (failure status)) =
      some (trailers_frame (build_trailers header_value status), true)
  step false none = some (trailers_frame (build_trailers header_value ok_status), true)

  -- The frames of the stream, from the flag and what `recv` answers one call after the other; a closed
  -- channel answers `none` to every call. Each step that does not end the stream is followed by
  -- another.
  unfoldable pub stream_frames : Bool → List (Option (Sent T)) → List Frame
  unfolding step
  stream_frames done [] = []
  stream_frames done (received ∷ more) = elim (step done received) [
    | none ↦ []
    | some r ↦ r.0 ∷ stream_frames (r.1) more
  ]
