-- ===== src/Dispatch/Body/Yields.antt =====
-- A unary body is the queue of its frames.
use typeway.Base.{
  false, ◌⊎◌, inl, inr, ℕ, ◌+◌, ◌≡◌, refl, List, [], ◌∷◌, Option, none, some, length, arith,
}
use typeway.Dispatch.Body.{
  Trailers, Frame, data_frame, trailers_frame, GrpcBody, poll_frame, is_end_stream, size_hint,
}

abbrev trailing : Option Trailers → List Frame
trailing none = []
trailing (some t) = trailers_frame t ∷ []

abbrev remaining_parts : Option (List ℕ) → Option Trailers → List Frame
remaining_parts none trailers = trailing trailers
remaining_parts (some []) trailers = trailing trailers
remaining_parts (some (b ∷ bytes)) trailers = data_frame (b ∷ bytes) ∷ trailing trailers

-- The frames that a body has left: its bytes, unless there are none, and its trailers.
unfoldable pub remaining : GrpcBody → List Frame
remaining s = remaining_parts s.payload s.trailers

abbrev pub head {ℓ} : {A : Type ℓ} → List A → Option A
head [] = none
head (x ∷ xs) = some x

abbrev pub tail {ℓ} : {A : Type ℓ} → List A → List A
tail [] = []
tail (x ∷ xs) = xs

abbrev pub data_length : List Frame → ℕ
data_length [] = 0
data_length (data_frame bytes ∷ fs) = length bytes + data_length fs
data_length (trailers_frame t ∷ fs) = data_length fs

-- What a body promises, given the frames it stands for.
pub record IsQueue (fs : List Frame) (s : GrpcBody) : Type 0 where
  pub polled : (poll_frame s).0 ≡ head fs
  pub left : remaining ((poll_frame s).1) ≡ tail fs
  pub hinted : size_hint s ≡ data_length fs
  pub ended : (is_end_stream s ≡ false) ⊎ (fs ≡ [])

IsQueue-parts :
    (p : Option (List ℕ)) (t : Option Trailers)
    → IsQueue (remaining_parts p t) (record { payload = p; trailers = t })
unfolding poll_frame remaining size_hint is_end_stream
IsQueue-parts none none = record { polled = refl; left = refl; hinted = refl; ended = inr refl }
IsQueue-parts none (some t) = record { polled = refl; left = refl; hinted = refl; ended = inl refl }
IsQueue-parts (some []) none = record {
  polled = refl;
  left = refl;
  hinted = refl;
  ended = inl refl;
}
IsQueue-parts (some []) (some t) = record {
  polled = refl;
  left = refl;
  hinted = refl;
  ended = inl refl;
}
IsQueue-parts (some (b ∷ bytes)) none = record {
  polled = refl;
  left = refl;
  hinted = omega arith;
  ended = inl refl;
}
IsQueue-parts (some (b ∷ bytes)) (some t) = record {
  polled = refl;
  left = refl;
  hinted = omega arith;
  ended = inl refl;
}

-- Each poll of a unary body takes the first of its remaining frames (the bytes, if there are any,
-- and then the trailers) and leaves the others; the size hint is the number of bytes that are to
-- come; and the body reports its end only where no frame is left.
pub poll_frame-IsQueue : (s : GrpcBody) → IsQueue (remaining s) s
unfolding remaining
poll_frame-IsQueue s = IsQueue-parts s.payload s.trailers
