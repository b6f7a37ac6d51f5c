-- ===== src/Codec/Buffer.antt =====
-- The `Vec<u8>` that the encoders of codec.rs write to.
use typeway.Base.{ℕ, ◌+◌, max, List, [], ◌∷◌, ◌++◌, Option, none, some, ltb, length, if◌then◌else◌}

-- The initialised bytes and the capacity, which `Vec` keeps at least as large.
pub record Buf : Type 0 where
  pub bytes : List ℕ
  pub cap : ℕ

-- `Vec::reserve`: room for `n` more bytes, and no less than there was.
unfoldable pub reserve : ℕ → Buf → Buf
reserve n b = record b { cap = max b.cap (length b.bytes + n) }

-- `Vec::push`, which grows a full vector.
unfoldable pub push : ℕ → Buf → Buf
push x b = record { bytes = b.bytes ++ x ∷ []; cap = max b.cap (length b.bytes + 1) }

-- `*base.add(pos) = x; pos += 1`, where `pos` is the number of bytes written. A write at or past the
-- capacity is undefined behaviour: `none`.
unfoldable pub poke : ℕ → Buf → Option Buf
poke x b =
    if ltb (length b.bytes) b.cap then some (record b { bytes = b.bytes ++ x ∷ [] }) else none
