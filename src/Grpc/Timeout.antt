-- ===== src/Grpc/Timeout.antt =====
-- typeway-grpc/src/status.rs: the `grpc-timeout` header. A text is the list of its code points, and a
-- duration is a number of nanoseconds.
pub mod Reads
use typeway.Base.{
  ℕ, zero, suc, ◌+◌, ◌-◌, ◌*◌, ◌^◌, Bool, true, false, ◌&&◌, ◌||◌, List, [], ◌∷◌, ◌++◌, Option,
  none, some, ltb, leb, ◌==◌, if◌then◌else◌,
}
use mathlib.Core.List.{reverse}
use typeway.Base.Options.{◌>>=◌}

-- `char::is_whitespace`
abbrev pub is_whitespace : ℕ → Bool
is_whitespace c =
    (leb 9 c && leb c 13)
    || c == 0x20
    || c == 0x85
    || c == 0xA0
    || c == 0x1680
    || (leb 0x2000 c && leb c 0x200A)
    || c == 0x2028
    || c == 0x2029
    || c == 0x202F
    || c == 0x205F
    || c == 0x3000

unfoldable pub trim_start : List ℕ → List ℕ
trim_start [] = []
trim_start (c ∷ value) = if is_whitespace c then trim_start value else c ∷ value

unfoldable pub trim : List ℕ → List ℕ
unfolding trim_start
trim value = reverse (trim_start (reverse (trim_start value)))

-- `char::len_utf8`
abbrev pub len_utf8 : ℕ → ℕ
len_utf8 c = if ltb c 0x80 then 1 else if ltb c 0x800 then 2 else if ltb c 0x10000 then 3 else 4

-- `str::len`, in bytes
abbrev pub byte_len : List ℕ → ℕ
byte_len [] = 0
byte_len (c ∷ value) = len_utf8 c + byte_len value

-- `acc.checked_mul(10)?.checked_add(d)?` on a u64
abbrev pub push_digit : ℕ → ℕ → Option ℕ
push_digit acc c =
    if leb b'0' c && leb c b'9'
    then (if ltb (acc * 10 + (c - b'0')) (2 ^ 64) then some (acc * 10 + (c - b'0')) else none)
    else none

unfoldable pub parse_digits : ℕ → List ℕ → Option ℕ
parse_digits acc [] = some acc
parse_digits acc (c ∷ text) = push_digit acc c >>= λ acc'. parse_digits acc' text

-- `str::parse::<u64>`: a sign `+` may stand in front, and there is a digit at least.
unfoldable pub parse_u64 : List ℕ → Option ℕ
unfolding parse_digits
parse_u64 [] = none
parse_u64 (c ∷ []) = if c == b'+' then none else parse_digits 0 (c ∷ [])
parse_u64 (c ∷ d ∷ text) =
    if c == b'+' then parse_digits 0 (d ∷ text) else parse_digits 0 (c ∷ d ∷ text)

-- What a call does: it panics, or returns.
pub data Outcome : Type 0 where
  panics : Outcome
  returns : Option ℕ → Outcome

-- `num.checked_mul(k).map(Duration::from_secs)`
abbrev pub checked_secs : ℕ → ℕ → Option ℕ
checked_secs num k = if ltb (num * k) (2 ^ 64) then some (num * k * 10 ^ 9) else none

abbrev pub in_unit : ℕ → ℕ → Option ℕ
in_unit num unit =
    if unit == b'H'
    then checked_secs num 3600
    else if unit == b'M'
    then checked_secs num 60
    else if unit == b'S'
    then some (num * 10 ^ 9)
    else if unit == b'm'
    then some (num * 10 ^ 6)
    else if unit == b'u'
    then some (num * 10 ^ 3)
    else if unit == b'n'
    then some num
    else none

-- The text before the last byte, and the last character. `split_at(value.len() - 1)` panics where the
-- last character takes more than one byte.
abbrev pub split_last : List ℕ → Option (List ℕ × ℕ)
split_last [] = none
split_last (c ∷ []) = some ([], c)
split_last (c ∷ d ∷ text) = split_last (d ∷ text) >>= λ r. some (c ∷ r.0, r.1)

unfoldable pub split_unit : Option (List ℕ × ℕ) → Outcome
unfolding parse_u64
split_unit none = returns none
split_unit (some (num_str, unit)) =
    if ltb unit 0x80 then returns (parse_u64 num_str >>= λ num. in_unit num unit) else panics

unfoldable pub parse_grpc_timeout : List ℕ → Outcome
unfolding trim split_unit
parse_grpc_timeout text =
    let value = trim text in
    if ltb (byte_len value) 2 then returns none else split_unit (split_last value)
