-- ===== src/Grpc/Timeout/Reads.antt =====
-- What `parse_grpc_timeout` reads.
use typeway.Base.{
  ℕ, ◌+◌, ◌-◌, ◌*◌, ◌^◌, ◌<◌, ◌≤◌, ◌≡◌, ◌≢◌, refl, ap, ◌∙◌, Bool, true, false, List, [], ◌∷◌, ◌++◌,
  Option, none, some, ltb, ne→==, if◌then◌else◌, All, arith, inl, inr, Bool-cases, not-ltb, lt→ltb,
}
use typeway.Base.Options.{◌>>=◌}
use typeway.Grpc.Timeout.{
  is_whitespace, trim_start, trim, len_utf8, byte_len, parse_digits, parse_u64, Outcome, panics,
  returns, in_unit, split_last, parse_grpc_timeout,
}
use mathlib.Core.List.{reverse, reverse-append, reverse-cons, reverse-reverse}

-- Behind a character that is no white space nothing is trimmed.
trim_start-concat :
    (text : List ℕ) (c : ℕ)
    → is_whitespace c ≡ false
    → trim_start (text ++ c ∷ []) ≡ trim_start text ++ c ∷ []
unfolding trim_start
trim_start-concat [] c h = rw h refl
trim_start-concat (x ∷ text) c h = elim (Bool-cases (is_whitespace x)) [
  | inl w ↦ rw w (trim_start-concat text c h)
  | inr w ↦ rw w refl
]

trim-concat :
    (text : List ℕ) (c : ℕ)
    → is_whitespace c ≡ false
    → trim (text ++ c ∷ []) ≡ trim_start text ++ c ∷ []
unfolding trim
trim-concat text c h =
    rw (trim_start-concat text c h, reverse-append (trim_start text) (c ∷ []), h)
      (reverse-cons c (reverse (trim_start text))
        ∙ ap (λ t. t ++ c ∷ []) (reverse-reverse (trim_start text)))

split_last-concat : (text : List ℕ) (c : ℕ) → split_last (text ++ c ∷ []) ≡ some (text, c)
split_last-concat [] c = refl
split_last-concat (x ∷ []) c = refl
split_last-concat (x ∷ y ∷ text) c = rw (split_last-concat (y ∷ text) c) refl

byte_len-concat : (text : List ℕ) (c : ℕ) → byte_len (text ++ c ∷ []) ≡ byte_len text + len_utf8 c
byte_len-concat [] c = omega arith
byte_len-concat (x ∷ text) c = omega (arith, byte_len-concat text c)

-- A text that ends, behind trimming, in a character of several bytes makes the call panic.
pub parse_grpc_timeout_panics :
    (text : List ℕ) (c : ℕ)
    → is_whitespace c ≡ false
    → 0x80 ≤ c
    → parse_grpc_timeout (text ++ c ∷ []) ≡ panics
unfolding parse_grpc_timeout
parse_grpc_timeout_panics text c h wide =
    let long : 2 ≤ len_utf8 c = ground arith in
    rw
      (
        trim-concat text c h,
        split_last-concat (trim_start text) c,
        not-ltb (byte_len (trim_start text ++ c ∷ [])) 2
            (omega (arith, byte_len-concat (trim_start text) c)),
        not-ltb c 0x80 wide,
      )
      refl

-- The number that a sequence of digits stands for, behind `acc`.
abbrev pub decimal : ℕ → List ℕ → ℕ
decimal acc [] = acc
decimal acc (d ∷ ds) = decimal (acc * 10 + (d - b'0')) ds

abbrev pub IsDigit : ℕ → Type 0
IsDigit d = (b'0' ≤ d) × (d ≤ b'9')

decimal_grows : (acc : ℕ) (ds : List ℕ) → acc ≤ decimal acc ds
decimal_grows acc [] = omega arith
decimal_grows acc (d ∷ ds) = omega (arith, decimal_grows (acc * 10 + (d - b'0')) ds)

parse_digits-decimal :
    (acc : ℕ) (ds : List ℕ)
    → All IsDigit ds
    → acc < 2 ^ 64
    → parse_digits acc ds ≡ (if ltb (decimal acc ds) (2 ^ 64) then some (decimal acc ds) else none)
unfolding parse_digits
parse_digits-decimal acc [] h ha = rw (lt→ltb acc (2 ^ 64) ha) refl
parse_digits-decimal acc (d ∷ ds) ((lo, hi), h) ha = ground (
  arith,
  parse_digits-decimal (acc * 10 + (d - b'0')) ds h,
  decimal_grows (acc * 10 + (d - b'0')) ds,
)

pub parse_u64-decimal :
    (d : ℕ) (ds : List ℕ)
    → IsDigit d
    → All IsDigit ds
    → parse_u64 (d ∷ ds)
      ≡ (if ltb (decimal 0 (d ∷ ds)) (2 ^ 64) then some (decimal 0 (d ∷ ds)) else none)
unfolding parse_u64
parse_u64-decimal d [] hd h = ground (arith, parse_digits-decimal 0 (d ∷ []) (hd, tt))
parse_u64-decimal d (e ∷ ds) hd h = ground (arith, parse_digits-decimal 0 (d ∷ e ∷ ds) (hd, h))

in_unit_if :
    (fits : Bool) (num unit : ℕ)
    → ◌≡◌ {A = Outcome}
        (returns ((if fits then some num else none) >>= λ n. in_unit n unit))
        (returns (if fits then in_unit num unit else none))
in_unit_if true num unit = refl
in_unit_if false num unit = refl

-- The units of the gRPC specification, in nanoseconds, and every other character.
pub data Lasts : ℕ → Option ℕ → Type 0 where
  hour : Lasts b'H' (some 3600000000000)
  minute : Lasts b'M' (some 60000000000)
  second : Lasts b'S' (some 1000000000)
  millisecond : Lasts b'm' (some 1000000)
  microsecond : Lasts b'u' (some 1000)
  nanosecond : Lasts b'n' (some 1)
  no_unit : (c : ℕ) → All (λ u. c ≢ u) (b'H' ∷ b'M' ∷ b'S' ∷ b'm' ∷ b'u' ∷ b'n' ∷ []) → Lasts c none

-- A number that a u64 holds, of units that make a duration whose seconds a u64 holds.
abbrev pub duration : ℕ → Option ℕ → Option ℕ
duration num none = none
duration num (some k) =
    if ltb num (2 ^ 64)
    then (if ltb (num * k) (2 ^ 64 * 1000000000) then some (num * k) else none)
    else none

none_if : (b : Bool) → ◌≡◌ {A = Option ℕ} (if b then none else none) none
none_if true = refl
none_if false = refl

in_unit-Lasts :
    (num : ℕ) {unit : ℕ} {k : Option ℕ}
    → Lasts unit k
    → (if ltb num (2 ^ 64) then in_unit num unit else none) ≡ duration num k
in_unit-Lasts num hour = ground arith
in_unit-Lasts num minute = ground arith
in_unit-Lasts num second = ground arith
in_unit-Lasts num millisecond = ground arith
in_unit-Lasts num microsecond = ground arith
in_unit-Lasts num nanosecond = ground arith
in_unit-Lasts num (no_unit c (h, (m, (s, (i, (u, (n, _))))))) =
    rw
      (
        ne→== c b'H' h,
        ne→== c b'M' m,
        ne→== c b'S' s,
        ne→== c b'm' i,
        ne→== c b'u' u,
        ne→== c b'n' n,
      )
      (none_if (ltb num (2 ^ 64)))

-- Digits and a character, as the gRPC specification writes a timeout: the call returns the number
-- through `in_unit`.
parse_grpc_timeout-in_unit :
    (d : ℕ) (ds : List ℕ) (unit : ℕ)
    → IsDigit d
    → All IsDigit ds
    → unit < 0x80
    → is_whitespace unit ≡ false
    → parse_grpc_timeout (d ∷ (ds ++ unit ∷ []))
      ≡ returns
          (if ltb (decimal 0 (d ∷ ds)) (2 ^ 64) then in_unit (decimal 0 (d ∷ ds)) unit else none)
unfolding parse_grpc_timeout
parse_grpc_timeout-in_unit d ds unit hd h ascii solid =
    let first : is_whitespace d ≡ false = ground arith in
    let kept : trim_start (d ∷ ds) ≡ d ∷ ds = unfold trim_start in rw first refl in
    let trimmed : trim (d ∷ (ds ++ unit ∷ [])) ≡ d ∷ (ds ++ unit ∷ []) =
      trim-concat (d ∷ ds) unit solid ∙ ap (λ t. t ++ unit ∷ []) kept in
    let one : 1 ≤ len_utf8 d = ground arith in
    let one' : 1 ≤ len_utf8 unit = ground arith in
    let long : 2 ≤ byte_len (d ∷ (ds ++ unit ∷ [])) = omega (arith, byte_len-concat ds unit) in
    rw
      (
        trimmed,
        split_last-concat (d ∷ ds) unit,
        not-ltb (byte_len (d ∷ (ds ++ unit ∷ []))) 2 long,
        lt→ltb unit 0x80 ascii,
        parse_u64-decimal d ds hd h,
      )
      (in_unit_if (ltb (decimal 0 (d ∷ ds)) (2 ^ 64)) (decimal 0 (d ∷ ds)) unit)

-- Digits and a unit, as the gRPC specification writes a timeout: the call returns the number times the
-- unit's nanoseconds, and nothing where the number does not fit 64 bits, or the seconds of the
-- duration do not, as can be for hours and minutes. Digits and any other ASCII character that is no
-- white space give nothing.
pub parse_grpc_timeout-decimal :
    (d : ℕ) (ds : List ℕ) (unit : ℕ) {k : Option ℕ}
    → IsDigit d
    → All IsDigit ds
    → unit < 0x80
    → is_whitespace unit ≡ false
    → Lasts unit k
    → parse_grpc_timeout (d ∷ (ds ++ unit ∷ [])) ≡ returns (duration (decimal 0 (d ∷ ds)) k)
parse_grpc_timeout-decimal d ds unit hd h ascii solid u =
    parse_grpc_timeout-in_unit d ds unit hd h ascii solid
    ∙ ap returns (in_unit-Lasts (decimal 0 (d ∷ ds)) u)
