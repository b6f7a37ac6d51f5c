-- ===== src/Codec/Varint.antt =====
-- What the protobuf encoding of an unsigned number is, with no reference to the code: groups of
-- seven bits, lowest first, each but the last with the top bit set.
use typeway.Base.{
  ℕ, zero, suc, ◌+◌, ◌/◌, ◌%◌, ◌^◌, ◌≤◌, ◌<◌, ◌*◌, ◌≡◌, refl, ap, List, [], ◌∷◌, ◌++◌, length,
  length-append, All, arith,
}
use typeway.Base.Order.{lt_wf}
use mathlib.Core.WellFounded
use native.Mathlib.Decide.{dec_lt}

abbrev pub IsByte : ℕ → Type 0
IsByte b = b < 256

abbrev pub IsU32 : ℕ → Type 0
IsU32 v = v < 2 ^ 32

abbrev pub IsU64 : ℕ → Type 0
IsU64 v = v < 2 ^ 64

pub data Varint : ℕ → List ℕ → Type 0 where
  last : (v : ℕ) → v < 128 → Varint v (v ∷ [])
  more : (v : ℕ) (bs : List ℕ) → 128 ≤ v → Varint (v / 128) bs → Varint v ((v % 128 + 128) ∷ bs)

pub Varint-exists : (v : ℕ) → (bs : List ℕ) × Varint v bs
Varint-exists v = WellFounded.induction lt_wf {C = λ n. (bs : List ℕ) × Varint n bs} v λ n ih.
    elim (dec_lt n 128) [
      | yes h ↦ (n ∷ [], last n h)
      | no h ↦
          let (bs, enc) = ih (n / 128) (omega arith) in
          ((n % 128 + 128) ∷ bs, more n bs (omega arith) enc)
    ]

pub Varint-IsByte : {v : ℕ} {bs : List ℕ} → Varint v bs → All IsByte bs
Varint-IsByte (last v h) = omega arith
Varint-IsByte (more v bs h enc) = (omega arith, Varint-IsByte enc)

pub Varint-length_pos : {v : ℕ} {bs : List ℕ} → Varint v bs → 1 ≤ length bs
Varint-length_pos (last v h) = omega arith
Varint-length_pos (more v bs h enc) = omega arith

-- A number below 128 ^ (k + 1) takes at most k + 1 bytes.
pub Varint-length_le :
    (k : ℕ) {v : ℕ} {bs : List ℕ} → Varint v bs → v < 128 ^ suc k → length bs ≤ suc k
Varint-length_le k (last v h) lt = omega arith
Varint-length_le zero (more v bs h enc) lt = absurd (omega arith)
Varint-length_le (suc k) (more v bs h enc) lt = omega (arith, Varint-length_le k enc (omega arith))

pub Varint-length_u64 : {v : ℕ} {bs : List ℕ} → Varint v bs → IsU64 v → length bs ≤ 10
Varint-length_u64 enc h = Varint-length_le 9 enc (omega arith)

pub Varint-length_u32 : {v : ℕ} {bs : List ℕ} → Varint v bs → IsU32 v → length bs ≤ 5
Varint-length_u32 enc h = Varint-length_le 4 enc (omega arith)

-- A packed sequence: the encodings one after the other.
pub data Varints : List ℕ → List ℕ → Type 0 where
  done : Varints [] []
  step :
      (v : ℕ) (vs bs rest out : List ℕ)
      → Varint v bs
      → Varints vs rest
      → out ≡ bs ++ rest
      → Varints (v ∷ vs) out

pub Varints-exist : (vs : List ℕ) → (out : List ℕ) × Varints vs out
Varints-exist [] = ([], done)
Varints-exist (v ∷ vs) =
    let (bs, enc) = Varint-exists v in
    let (rest, encs) = Varints-exist vs in
    (bs ++ rest, step v vs bs rest (bs ++ rest) enc encs refl)

-- Packed u32 values take at most five bytes each.
pub Varints-length_u32 :
    {vs out : List ℕ} → Varints vs out → All IsU32 vs → length out ≤ length vs * 5
Varints-length_u32 done h = omega arith
Varints-length_u32 (step v vs bs rest out enc encs e) (hv, hvs) = omega (
  arith,
  ap length e,
  length-append bs rest,
  Varint-length_u32 enc hv,
  Varints-length_u32 encs hvs,
)
