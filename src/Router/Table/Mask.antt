-- ===== src/Router/Table/Mask.antt =====
-- The bitmap of the methods with routes: what adding a method's bit to it does.
use typeway.Base.{
  ℕ, ◌^◌, ◌<◌, ltb, ◌≡◌, ◌≢◌, ◌⊎◌, refl, Bool, true, not, ◌&&◌, ◌||◌, ◌==◌, bit_or, arith,
}
use typeway.Base.Bits.{every, every_sound}
use typeway.Router.Method.{Method, extension, method_bit}

-- The position of a method's bit.
slot : Method → ℕ
slot Method.get = 0
slot Method.post = 1
slot Method.put = 2
slot Method.delete = 3
slot Method.patch = 4
slot Method.head = 5
slot Method.options = 6
slot (extension name) = 7

slot_lem : (m : Method) → (method_bit m ≡ 2 ^ slot m) × (slot m < 8)
unfolding slot method_bit
slot_lem Method.get = (refl, omega arith)
slot_lem _ = (refl, omega arith)

-- `mask | bit` is a single bit only if it is that bit and the mask was that bit or nothing.
only_bit_test : ℕ → ℕ → ℕ → Bool
only_bit_test b c mask = not (bit_or mask b == c) || (b == c && (mask == c || mask == 0))

only_bit_table : every (λ j. every (λ k. every (only_bit_test (2 ^ j) (2 ^ k)) 256) 8) 8 ≡ true
unfolding only_bit_test every
only_bit_table = refl

pub only_bit :
    (m n : Method) (mask : ℕ)
    → mask < 256
    → bit_or mask (method_bit m) ≡ method_bit n
    → (method_bit m ≡ method_bit n) × ((mask ≡ method_bit n) ⊎ (mask ≡ 0))
only_bit m n mask h e =
    let (bm, lm) = slot_lem m in
    let (bn, ln) = slot_lem n in
    let row =
      every_sound (λ j. every (λ k. every (only_bit_test (2 ^ j) (2 ^ k)) 256) 8) 8 (slot m)
        only_bit_table lm in
    let cell =
      every_sound (λ k. every (only_bit_test (2 ^ slot m) (2 ^ k)) 256) 8 (slot n) row ln in
    let test : only_bit_test (method_bit m) (method_bit n) mask ≡ true =
      rw (bm, bn) (every_sound (only_bit_test (2 ^ slot m) (2 ^ slot n)) 256 mask cell h) in
    unfold only_bit_test in ground arith

bit_or_small_test : ℕ → ℕ → Bool
bit_or_small_test b mask = ltb (bit_or mask b) 256 && not (bit_or mask b == 0)

bit_or_small_table : every (λ j. every (bit_or_small_test (2 ^ j)) 256) 8 ≡ true
unfolding bit_or_small_test every
bit_or_small_table = refl

pub bit_or_small :
    (m : Method) (mask : ℕ)
    → mask < 256
    → (bit_or mask (method_bit m) < 256) × (bit_or mask (method_bit m) ≢ 0)
bit_or_small m mask h =
    let (bm, lm) = slot_lem m in
    let row =
      every_sound (λ j. every (bit_or_small_test (2 ^ j)) 256) 8 (slot m) bit_or_small_table lm in
    let test : bit_or_small_test (method_bit m) mask ≡ true =
      rw bm (every_sound (bit_or_small_test (2 ^ slot m)) 256 mask row h) in
    unfold bit_or_small_test in ground arith
