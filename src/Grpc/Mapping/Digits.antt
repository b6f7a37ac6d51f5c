-- ===== src/Grpc/Mapping/Digits.antt =====
-- A number that mapping.rs writes is the number that proto_parse.rs reads.
use Prim.Native.Char.{Char, code}
use typeway.Base.{
  ℕ, ◌+◌, ◌-◌, ◌*◌, ◌/◌, ◌%◌, ◌^◌, ◌<◌, ◌≡◌, refl, sym, ap, ap₂, subst, ◌∙◌, Bool, true, ◌||◌, List,
  [], ◌∷◌, ◌++◌, some, ltb, ◌==◌, map, All, All-append, dec_le, arith, lt→ltb,
}
use typeway.Base.Bits.{every, every_sound}
use typeway.Base.Order.{lt_wf}
use typeway.Router.Pattern.{show, show_loop, digit_lt}
use typeway.Grpc.Timeout.Reads.{decimal, IsDigit, parse_u64-decimal}
use typeway.Grpc.Timeout.{parse_u64}
use typeway.Grpc.Parse.Chars.{Text, parse_u32}
use typeway.Grpc.Mapping.{digit_char, number}
use mathlib.Core.Logic.{dif_pos, dif_neg}
use mathlib.Core.WellFounded.{Acc}
use native.Mathlib.Bridge.{le_prop}

digit_test : ℕ → Bool
digit_test d = ltb d b'0' || code (digit_char d) == d

digit_table : every digit_test 58 ≡ true
unfolding every digit_test
digit_table = refl

code-digit_char : (d : ℕ) → IsDigit d → code (digit_char d) ≡ d
unfolding digit_test
code-digit_char d (lo, hi) =
    let t = every_sound digit_test 58 d digit_table (omega arith) in ground arith

map_code-digit_char : (ds : List ℕ) → All IsDigit ds → map code (map digit_char ds) ≡ ds
map_code-digit_char [] h = refl
map_code-digit_char (d ∷ ds) (hd, h) =
    ap₂ (λ (x : ℕ) (l : List ℕ). x ∷ l) (code-digit_char d hd) (map_code-digit_char ds h)

decimal-snoc :
    (acc : ℕ) (ds : List ℕ) (d : ℕ) → decimal acc (ds ++ d ∷ []) ≡ decimal acc ds * 10 + (d - b'0')
decimal-snoc acc [] d = refl
decimal-snoc acc (e ∷ ds) d = decimal-snoc (acc * 10 + (e - b'0')) ds d

-- The digits of a number, of which there is at least one.
abbrev Shows : List ℕ → ℕ → Type 0
Shows ds n = All IsDigit ds × (decimal 0 ds ≡ n) × ((d : ℕ) × (rest : List ℕ) × (ds ≡ d ∷ rest))

snoc_cons : (ds : List ℕ) (d : ℕ) → (e : ℕ) × (rest : List ℕ) × (ds ++ d ∷ [] ≡ e ∷ rest)
snoc_cons [] d = (d, [], refl)
snoc_cons (e ∷ ds) d = (e, ds ++ d ∷ [], refl)

show_loop-Shows : (n : ℕ) (w : Acc ◌<◌ n) → Shows (show_loop n w) n
unfolding show_loop
show_loop-Shows n (Acc.intro _ smaller) = elim (dec_le 10 n) [
  | yes h ↦
      let (digits, value, _) = show_loop-Shows (n / 10) (smaller (n / 10) (digit_lt n h)) in
      let front : List ℕ = show_loop (n / 10) (smaller (n / 10) (digit_lt n h)) in
      rw (dif_pos (dec_le 10 n) le_prop h) (
        All-append IsDigit front ((n % 10 + b'0') ∷ []) digits (omega arith),
        decimal-snoc 0 front (n % 10 + b'0') ∙ omega arith,
        snoc_cons front (n % 10 + b'0'),
      )
  | no h ↦ rw (dif_neg (dec_le 10 n) h) ((omega arith, tt), omega arith, (n + b'0', [], refl))
]

show-Shows : (n : ℕ) → Shows (show n) n
unfolding show
show-Shows n = show_loop-Shows n (lt_wf.apply n)

pub parse_u32-number : (n : ℕ) → n < 2 ^ 32 → parse_u32 (number n) ≡ some n
unfolding parse_u32 number
parse_u32-number n h =
    let (digits, value, (d, ds, split)) = show-Shows n in
    let (hd, hds) : All IsDigit (d ∷ ds) = rw split at digits in
    let sum : decimal 0 (d ∷ ds) ≡ n = rw split at value in
    let read : parse_u64 (show n) ≡ some n =
      ap parse_u64 split
      ∙ parse_u64-decimal d ds hd hds
      ∙ rw (sum, lt→ltb n (2 ^ 64) (omega arith)) refl in
    rw (map_code-digit_char (show n) digits, read, lt→ltb n (2 ^ 32) h) refl

-- The characters of a number are digits, and there is one at least.
pub number_digits :
    (n : ℕ)
    → All (λ c. IsDigit (code c)) (number n) × ((c : Char) × (rest : Text) × (number n ≡ c ∷ rest))
unfolding number
number_digits n =
    let (digits, _, (d, ds, split)) = show-Shows n in
    (each (show n) digits, (digit_char d, map digit_char ds, ap (map digit_char) split))
  where
    each : (l : List ℕ) → All IsDigit l → All (λ c. IsDigit (code c)) (map digit_char l)
    each [] h = tt
    each (d ∷ l) (hd, h) = (subst IsDigit (sym (code-digit_char d hd)) hd, each l h)
