-- ===== src/Dispatch/Stream/Ends.antt =====
-- A streamed body ends in one trailers frame, whatever the polls that find nothing.
use typeway.Base.{
  ℕ, zero, suc, inl, inr, Bool-cases, ◌≡◌, refl, ap, Bool, true, false, List, [], ◌∷◌, ◌++◌, map,
  Option, none, some,
}
use typeway.Grpc.Framing.{encode_grpc_frame}
use typeway.Dispatch.Body.{
  GrpcStatus, Trailers, Frame, data_frame, trailers_frame, status_to_trailers, ok_status,
}
use typeway.Grpc.Status.{GrpcCode}
use typeway.Dispatch.Body.Status.{read_code, read_code-show}
use typeway.Dispatch.Stream.{
  Poll, pending, ready, GrpcStreamBody, stream_with_status, poll_stream, Sent, item, failure,
  or_empty, stream_frames, build_trailers,
}

-- The frames that a sequence of polls yields, given what the channel answers at each of them.
unfoldable pub polled :
    (List ℕ → Bool) → GrpcStreamBody → List (Poll (Option (List ℕ))) → List Frame
polled header_value s [] = []
polled header_value s (p ∷ polls) =
    let rest = polled header_value ((poll_stream header_value s p).1) polls in
    elim ((poll_stream header_value s p).0) [
      | ready (some f) ↦ f ∷ rest
      | ready none ↦ rest
      | pending ↦ rest
    ]

-- A channel that holds the items and closes: each poll finds nothing yet, the next item, or behind
-- the last item the end; what follows is not asked any more.
pub data Delivers : List (List ℕ) → List (Poll (Option (List ℕ))) → Type 0 where
  closed : (more : List (Poll (Option (List ℕ)))) → Delivers [] (ready none ∷ more)
  waits :
      {items : List (List ℕ)} {polls : List (Poll (Option (List ℕ)))}
      → Delivers items polls
      → Delivers items (pending ∷ polls)
  sends :
      (bytes : List ℕ) {items : List (List ℕ)} {polls : List (Poll (Option (List ℕ)))}
      → Delivers items polls
      → Delivers (bytes ∷ items) (ready (some bytes) ∷ polls)

polled_done :
    (header_value : List ℕ → Bool) (status : GrpcStatus) (polls : List (Poll (Option (List ℕ))))
    → polled header_value (record { status = status; done = true }) polls ≡ []
unfolding polled poll_stream
polled_done header_value status [] = refl
polled_done header_value status (p ∷ polls) = polled_done header_value status polls

-- In whatever order the channel's items and the polls that find nothing come, the body yields the
-- items as data frames, in their order, and then one trailers frame with its status, and nothing
-- behind that.
pub polled-Delivers :
    (header_value : List ℕ → Bool) (status : GrpcStatus) {items : List (List ℕ)}
    {polls : List (Poll (Option (List ℕ)))}
    → Delivers items polls
    → polled header_value (stream_with_status status) polls
      ≡ map data_frame items ++ trailers_frame (status_to_trailers header_value status) ∷ []
unfolding polled poll_stream stream_with_status
polled-Delivers header_value status (closed more) =
    ap (λ fs. trailers_frame (status_to_trailers header_value status) ∷ fs)
      (polled_done header_value status more)
polled-Delivers header_value status (waits d) = polled-Delivers header_value status d
polled-Delivers header_value status (sends bytes d) =
    ap (λ fs. data_frame bytes ∷ fs) (polled-Delivers header_value status d)

-- The message of a status as a header: as it is, where it is not empty and is a header value.
pub data Shows (header_value : List ℕ → Bool) : List ℕ → Option (List ℕ) → Type 0 where
  empty : Shows header_value [] none
  refused :
      (b : ℕ) (message : List ℕ)
      → header_value (b ∷ message) ≡ false
      → Shows header_value (b ∷ message) none
  shown :
      (b : ℕ) (message : List ℕ)
      → header_value (b ∷ message) ≡ true
      → Shows header_value (b ∷ message) (some (b ∷ message))

build_trailers-Shows :
    (header_value : List ℕ → Bool) (code : GrpcCode) (message : List ℕ)
    → Shows header_value message
        (build_trailers header_value
          (record { status_code = code; message = message })).grpc_message
unfolding build_trailers
build_trailers-Shows header_value code [] = empty
build_trailers-Shows header_value code (b ∷ message) =
    elim (Bool-cases (header_value (b ∷ message))) [
      | inl e ↦ rw e (shown b message e)
      | inr e ↦ rw e (refused b message e)
    ]

module _ {T : Type 0} (to_vec : T → Option (List ℕ)) where
  -- What is sent up to the first failure, and the status that the stream ends with.
  abbrev pub sent_items : List (Sent T) → List T
  sent_items [] = []
  sent_items (item x ∷ sent) = x ∷ sent_items sent
  sent_items (failure status ∷ sent) = []

  abbrev pub final_status : List (Sent T) → GrpcStatus
  final_status [] = ok_status
  final_status (item x ∷ sent) = final_status sent
  final_status (failure status ∷ sent) = status

  abbrev pub framed : T → Frame
  framed x = data_frame (encode_grpc_frame (or_empty (to_vec x)))

  -- What `recv` answers: what was sent, and then that the channel is closed, as often as it is asked.
  abbrev pub answers : List (Sent T) → ℕ → List (Option (Sent T))
  answers (x ∷ sent) again = some x ∷ answers sent again
  answers [] zero = none ∷ []
  answers [] (suc again) = none ∷ answers [] again

  stream_frames_done :
      (header_value : List ℕ → Bool) (received : List (Option (Sent T)))
      → stream_frames header_value to_vec true received ≡ []
  unfolding stream_frames
  stream_frames_done header_value [] = refl
  stream_frames_done header_value (x ∷ received) = refl

  -- The frames, with the trailers as `build_trailers` makes them.
  pub stream_frames-framed :
      (header_value : List ℕ → Bool) (sent : List (Sent T)) (again : ℕ)
      → stream_frames header_value to_vec false (answers sent again)
        ≡ map framed (sent_items sent)
          ++ trailers_frame (build_trailers header_value (final_status sent)) ∷ []
  unfolding stream_frames
  stream_frames-framed header_value [] zero = refl
  stream_frames-framed header_value [] (suc again) =
      ap (λ fs. trailers_frame (build_trailers header_value ok_status) ∷ fs)
        (stream_frames_done header_value (answers [] again))
  stream_frames-framed header_value (item x ∷ sent) again =
      ap (λ fs. framed x ∷ fs) (stream_frames-framed header_value sent again)
  stream_frames-framed header_value (failure status ∷ sent) again =
      ap (λ fs. trailers_frame (build_trailers header_value status) ∷ fs)
        (stream_frames_done header_value (answers sent again))

  -- A stream yields a frame for each item that was sent before the first failure, and ends in one
  -- trailers frame, however often it could ask the closed channel again: a client reads from it the
  -- code of that failure, and OK where the channel closed without one, and the failure's message as
  -- it is if it is not empty and is a header value. What is sent behind a failure is not delivered.
  pub stream_frames_lem :
      (header_value : List ℕ → Bool) (sent : List (Sent T)) (again : ℕ)
      → (t : Trailers) × (stream_frames header_value to_vec false (answers sent again)
          ≡ map framed (sent_items sent) ++ trailers_frame t ∷ [])
        × (read_code t ≡ some (final_status sent).status_code)
        × Shows header_value (final_status sent).message t.grpc_message
  unfolding build_trailers
  stream_frames_lem header_value sent again =
      let status = final_status sent in
      (
        build_trailers header_value status,
        stream_frames-framed header_value sent again,
        read_code-show status.status_code (build_trailers header_value status) refl,
        build_trailers-Shows header_value status.status_code status.message,
      )
