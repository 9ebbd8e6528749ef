-- ===== src/Base/Decimal.antt =====
-- strconv.FormatInt, strconv.Itoa and strconv.ParseInt in base 10 for int64.
use Prim.Native.Nat.{ℕ, zero, suc, ◌+◌, ◌-◌, ◌*◌, ◌/◌, ◌%◌, ◌^◌, ◌≤◌, ◌<◌}
use mathlib.Core.Path.{◌≡◌, refl, ap, ◌∙◌}
use mathlib.Core.Bool.{Bool, true, ◌&&◌}
use mathlib.Core.List.{[], ◌∷◌}
use mathlib.Core.Logic.{inl, inr}
use native.Mathlib.Nat.{pow-suc}
use native.Mathlib.Omega.{arith}
use live_collab.Base.Tests.{ltb, leb, ◌==◌, if◌then◌else◌, Bool-cases, both_branches}
use live_collab.Base.Text.{Str}
use live_collab.Base.Word.{Int64, int64_limit}
use live_collab.Base.Result.{Result, ok, err, parse_error, ◌>>=◌}

-- The digits of n, at most as many as the fuel, in front of a text.
unfoldable pub digits : ℕ → ℕ → Str → Str
digits zero n rest = rest
digits (suc fuel) n rest =
    let longer = digits fuel (n / 10) ((b'0' + n % 10) ∷ rest) in
    if ltb n 10 then (b'0' + n % 10) ∷ rest else longer

-- A number below 10 ^ 20 in decimal; every value of 64 bits is.
unfoldable pub format_nat : ℕ → Str
format_nat n = digits 20 n []

-- FormatInt(x, 10).
unfoldable pub format_int : Int64 → Str
unfolding format_nat
format_int x =
    if ltb x int64_limit then format_nat x else b'-' ∷ format_nat (0x10000000000000000 - x)

is_digit : ℕ → Bool
is_digit c = leb b'0' c && leb c b'9'

parse_digits : ℕ → Str → Result ℕ
unfolding is_digit
parse_digits n [] = ok n
parse_digits n (c ∷ cs) =
    let rest = parse_digits (n * 10 + (c - b'0')) cs in if is_digit c then rest else err parse_error

-- At least one digit.
parse_unsigned : Str → Result ℕ
unfolding parse_digits
parse_unsigned [] = err parse_error
parse_unsigned (c ∷ cs) = parse_digits 0 (c ∷ cs)

in_range : ℕ → Result Int64
in_range n = if ltb n int64_limit then ok n else err parse_error

negated : ℕ → Result Int64
negated zero = ok 0
negated n = if leb n int64_limit then ok (0x10000000000000000 - n) else err parse_error

-- ParseInt(s, 10, 64).
unfoldable pub parse_int : Str → Result Int64
unfolding parse_unsigned in_range negated
parse_int [] = err parse_error
parse_int (c ∷ cs) =
    if c == b'-'
    then parse_unsigned cs >>= negated
    else if c == b'+'
    then parse_unsigned cs >>= in_range
    else parse_unsigned (c ∷ cs) >>= in_range

digit_step :
    (q d n : ℕ) (rest : Str)
    → d < 10
    → q * 10 + d ≡ n
    → parse_digits q ((b'0' + d) ∷ rest) ≡ parse_digits n rest
unfolding parse_digits
digit_step q d n rest h e =
    let digit : is_digit (b'0' + d) ≡ true = ground arith in
    let value : q * 10 + ((b'0' + d) - b'0') ≡ n = omega arith in rw (digit, value)

parse_digits-digits :
    (fuel n : ℕ) (rest : Str)
    → n < 10 ^ fuel
    → parse_digits 0 (digits fuel n rest) ≡ parse_digits n rest
unfolding digits
parse_digits-digits zero n rest h = ap (λ (k : ℕ). parse_digits k rest) (omega arith)
parse_digits-digits (suc fuel) n rest h = elim (Bool-cases (ltb n 10)) [
  | inl small ↦ rw small (digit_step 0 (n % 10) n rest (omega arith) (ground arith))
  | inr large ↦ rw large (
      parse_digits-digits fuel (n / 10) ((b'0' + n % 10) ∷ rest) (omega (arith, pow-suc 10 fuel))
      ∙ digit_step (n / 10) (n % 10) n rest (omega arith) (omega arith))
]

digits-cons :
    (fuel n : ℕ) (rest : Str)
    → (d : ℕ) × (t : Str) × (digits (suc fuel) n rest ≡ (b'0' + d) ∷ t) × (d < 10)
unfolding digits
digits-cons zero n rest = (n % 10, rest, ground arith, omega arith)
digits-cons (suc fuel) n rest =
    let (d, t, e, h) = digits-cons fuel (n / 10) ((b'0' + n % 10) ∷ rest) in
    elim (Bool-cases (ltb n 10)) [
      | inl small ↦ (n % 10, rest, rw (small, digits), omega arith)
      | inr large ↦ (d, t, rw (digits, large) e, h)
    ]

unsigned_lem :
    (s : Str) (d : ℕ) (t : Str) → s ≡ (b'0' + d) ∷ t → parse_unsigned s ≡ parse_digits 0 s
unfolding parse_unsigned
unsigned_lem [] d t e = cc
unsigned_lem (c ∷ s) d t e = refl

parse_unsigned-format_nat : (n : ℕ) → n < 0x10000000000000000 → parse_unsigned (format_nat n) ≡ ok n
unfolding format_nat parse_digits
parse_unsigned-format_nat n h =
    let (d, t, e, _) = digits-cons 19 n [] in
    unsigned_lem (digits 20 n []) d t e ∙ parse_digits-digits 20 n [] (omega arith)

-- A text that begins with a digit is read without a sign.
parse_int-digit :
    (s : Str) (d : ℕ) (t : Str)
    → s ≡ (b'0' + d) ∷ t
    → d < 10
    → parse_int s ≡ (parse_unsigned s >>= in_range)
unfolding parse_int
parse_int-digit [] d t e h = cc
parse_int-digit (c ∷ s) d t e h = ground arith

in_range_lem : (n : ℕ) → n < int64_limit → in_range n ≡ ok n
unfolding in_range
in_range_lem n h = ground arith

negated_lem : (n : ℕ) → 0 < n → n ≤ int64_limit → negated n ≡ ok (0x10000000000000000 - n)
unfolding negated
negated_lem zero h k = absurd (omega arith)
negated_lem (suc n) h k = ground arith

parse_int-negative :
    (x : Int64)
    → int64_limit ≤ x
    → x < 0x10000000000000000
    → parse_int (b'-' ∷ format_nat (0x10000000000000000 - x)) ≡ ok x
unfolding parse_int
parse_int-negative x h k =
    rw (parse_unsigned-format_nat (0x10000000000000000 - x) (omega arith))
      (negated_lem (0x10000000000000000 - x) (omega arith) (omega arith) ∙ ap ok (omega arith))

parse_int-nonneg : (n : ℕ) → n < int64_limit → parse_int (format_nat n) ≡ ok n
unfolding format_nat
parse_int-nonneg n h =
    let (d, t, e, small) = digits-cons 19 n [] in
    parse_int-digit (digits 20 n []) d t e small
    ∙ rw (parse_unsigned-format_nat n (omega arith)) (in_range_lem n h)

-- Every int64 is read back from its decimal text.
pub parse_int-format_int : (x : Int64) → x < 0x10000000000000000 → parse_int (format_int x) ≡ ok x
unfolding format_int
parse_int-format_int x h = elim (Bool-cases (ltb x int64_limit)) [
  | inl small ↦ rw small (parse_int-nonneg x (ground arith))
  | inr large ↦ rw large (parse_int-negative x (ground arith) h)
]

-- An error, or a value of 64 bits.
abbrev pub IsBounded : Result Int64 → Type 0
IsBounded (ok x) = x < 0x10000000000000000
IsBounded (err e) = Unit {0}

bind-IsBounded :
    (r : Result ℕ) (f : ℕ → Result Int64) → ((n : ℕ) → IsBounded (f n)) → IsBounded (r >>= f)
bind-IsBounded (ok n) f h = h n
bind-IsBounded (err e) f h = tt

in_range-IsBounded : (n : ℕ) → IsBounded (in_range n)
unfolding in_range
in_range-IsBounded n = elim (Bool-cases (ltb n int64_limit)) [
  | inl e ↦ rw e (ground arith)
  | inr e ↦ rw e tt
]

negated-IsBounded : (n : ℕ) → IsBounded (negated n)
unfolding negated
negated-IsBounded zero = omega arith
negated-IsBounded (suc n) = elim (Bool-cases (leb (suc n) int64_limit)) [
  | inl e ↦ rw e (omega arith)
  | inr e ↦ rw e tt
]

-- ParseInt gives a value of 64 bits or an error.
pub parse_int-IsBounded : (s : Str) → IsBounded (parse_int s)
unfolding parse_int
parse_int-IsBounded [] = tt
parse_int-IsBounded (c ∷ cs) =
    both_branches IsBounded (c == b'-')
      (bind-IsBounded (parse_unsigned cs) negated negated-IsBounded)
      (both_branches IsBounded (c == b'+')
        (bind-IsBounded (parse_unsigned cs) in_range in_range-IsBounded)
        (bind-IsBounded (parse_unsigned (c ∷ cs)) in_range in_range-IsBounded))
