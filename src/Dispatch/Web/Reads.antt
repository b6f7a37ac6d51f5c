-- ===== src/Dispatch/Web/Reads.antt =====
-- What a gRPC-Web client reads.
use typeway.Base.{
  ℕ, ◌%◌, ◌^◌, ◌≡◌, refl, ap, ap₂, ◌∙◌, Bool, true, false, List, [], ◌∷◌, ◌++◌, map, Option, none,
  some, length, All, arith,
}
use typeway.Grpc.Framing.{Frames, decode_grpc_frames, encode_grpc_frame}
use typeway.Grpc.Framing.RoundTrip.{IsU32, encode_all, decode_grpc_frames_trailers}
use typeway.Dispatch.Body.{ascii, Trailers, trailers_frame}
use typeway.Dispatch.Stream.{Sent, or_empty, stream_frames}
use typeway.Dispatch.Stream.Ends.{sent_items, framed, answers, stream_frames-framed}
use typeway.Dispatch.Synthetic.{Http, Parts}
use typeway.Dispatch.Wrap.{streamed, Response, collect, data_bytes}
use typeway.Dispatch.Wrap.Reports.{Reports}
use typeway.Dispatch.Web.{
  is_grpc_web_request, is_json_request, trailers_text, encode_trailers_frame, status_or_zero,
  to_web, Service, to_grpc, web_call,
}

-- The frames of the service, and behind them a status and a message.
abbrev pub web_frames : List (List ℕ) → List ℕ → Option (List ℕ) → Frames
web_frames ms grpc_status grpc_message = record {
  frames = ms;
  trailers = some (trailers_text grpc_status grpc_message);
}

combined-frames :
    (ms : List (List ℕ)) (grpc_status : List ℕ) (grpc_message : Option (List ℕ))
    → All (λ m. IsU32 (length m)) ms
    → IsU32 (length (trailers_text grpc_status grpc_message))
    → decode_grpc_frames (encode_all ms ++ encode_trailers_frame grpc_status grpc_message)
      ≡ some (web_frames ms grpc_status grpc_message)
unfolding encode_trailers_frame
combined-frames ms grpc_status grpc_message small trailers_small =
    let text = trailers_text grpc_status grpc_message in
    let whole : length text % 2 ^ 32 ≡ length text = omega arith in
    rw whole (decode_grpc_frames_trailers ms text small trailers_small)

module _ (W : Http) (inner : Service W) (parts : Parts W) (body : Option (List ℕ))
    (web : is_grpc_web_request parts.headers ≡ true) where
  -- What the layer asks of the service.
  abbrev pub forwarded : Response
  forwarded = inner (to_grpc W (is_json_request parts.headers) parts) body

  combined :
      collect (web_call W inner parts body).body
      ≡ collect forwarded.body
        ++ encode_trailers_frame (status_or_zero forwarded.grpc_status) forwarded.grpc_message
  unfolding web_call to_web
  combined = rw (web, to_web) refl

  web_call-frames :
      (ms : List (List ℕ)) (grpc_status : List ℕ) (grpc_message : Option (List ℕ))
      → collect forwarded.body ≡ encode_all ms
      → status_or_zero forwarded.grpc_status ≡ grpc_status
      → forwarded.grpc_message ≡ grpc_message
      → All (λ m. IsU32 (length m)) ms
      → IsU32 (length (trailers_text grpc_status grpc_message))
      → decode_grpc_frames (collect (web_call W inner parts body).body)
        ≡ some (web_frames ms grpc_status grpc_message)
  web_call-frames ms grpc_status grpc_message sent status_is message_is small trailers_small =
      ap decode_grpc_frames (
        combined
        ∙ ap₂ (λ (a b : List ℕ). a ++ b) sent (ap₂ encode_trailers_frame status_is message_is))
      ∙ combined-frames ms grpc_status grpc_message small trailers_small

module _ {T : Type 0} (to_vec : T → Option (List ℕ)) where
  -- The messages that a stream sends before it fails or closes.
  abbrev pub sent_messages : List (Sent T) → List (List ℕ)
  sent_messages sent = map (λ x. or_empty (to_vec x)) (sent_items to_vec sent)

  data_bytes-framed :
      (items : List T) (t : Trailers)
      → data_bytes (map (framed to_vec) items ++ trailers_frame t ∷ [])
        ≡ encode_all (map (λ x. or_empty (to_vec x)) items)
  data_bytes-framed [] t = refl
  data_bytes-framed (x ∷ items) t =
      ap (λ (bytes : List ℕ). encode_grpc_frame (or_empty (to_vec x)) ++ bytes)
        (data_bytes-framed items t)

  -- A stream's status is in the trailers of its HTTP body alone, and a gRPC-Web client does not get it:
  -- whatever failure the stream ends with, the client reads the messages that were sent before, each
  -- below 4 GiB, and status 0 behind them.
  pub web_call-stream :
      (W : Http) (inner : Service W) (parts : Parts W) (body : Option (List ℕ))
      (web : is_grpc_web_request parts.headers ≡ true) (header_value : List ℕ → Bool)
      (sent : List (Sent T)) (again : ℕ)
      → (forwarded W inner parts body web).grpc_status ≡ none
      → (forwarded W inner parts body web).grpc_message ≡ none
      → (forwarded W inner parts body web).body
        ≡ streamed (stream_frames header_value to_vec false (answers to_vec sent again))
      → All (λ m. IsU32 (length m)) (sent_messages sent)
      → decode_grpc_frames (collect (web_call W inner parts body).body)
        ≡ some (record {
          frames = sent_messages sent;
          trailers = some (trailers_text (ascii "0") none);
        })
  unfolding collect trailers_text
  web_call-stream W inner parts body web header_value sent again no_status no_message streams
        small =
      web_call-frames W inner parts body web (sent_messages sent) (ascii "0") none
        (ap collect streams
          ∙ ap data_bytes (stream_frames-framed to_vec header_value sent again)
          ∙ data_bytes-framed (sent_items to_vec sent) _)
        (ap status_or_zero no_status) no_message small (omega arith)
