-- ===== src/Prelude/Decimal.antt =====
-- Decimal numbers as Go's strconv prints and parses them (Itoa and "%d"; Atoi and ParseInt in base 10
-- with 64 bits).
use Prim.Native.Nat.{ℕ, zero, suc, ◌+◌, ◌-◌, ◌*◌, ◌/◌, ◌%◌, ◌^◌, ◌<◌}
use mathlib.Core.Path.{◌≡◌, refl, ap, ◌∙◌}
use mathlib.Core.Logic.{inl, inr}
use mathlib.Core.Bool.{Bool, true, ◌&&◌}
use mathlib.Core.Option.{Option, none, some}
use mathlib.Core.List.{[], ◌∷◌, ◌++◌}
use native.Mathlib.Omega.{arith}
use skill_issues.Prelude.Tests.{ltb, leb, ◌==◌, if◌then◌else◌, if_cases, Bool-cases}
use skill_issues.Prelude.Int.{ℤ, pos, negsuc}
use skill_issues.Prelude.Lists.{All, All-append, All-map, length, length-append}
use skill_issues.Prelude.Text.{Text}

-- The last digit of a number is the last byte; `fuel` is above the number.
unfoldable pub digits : ℕ → ℕ → Text
digits zero n = []
digits (suc fuel) n =
    let rest = digits fuel (n / 10) in
    if ltb n 10 then (48 + n) ∷ [] else rest ++ ((48 + n % 10) ∷ [])

unfoldable pub print_int : ℤ → Text
unfolding digits
print_int (pos n) = digits (suc n) n
print_int (negsuc n) = b'-' ∷ digits (suc (suc n)) (suc n)

abbrev pub is_digit : ℕ → Bool
is_digit c = leb 48 c && leb c 57

abbrev pub value_from : ℕ → Text → Option ℕ
value_from n [] = some n
value_from n (c ∷ s) = if is_digit c then value_from (n * 10 + (c - 48)) s else none

abbrev pub value : Text → Option ℕ
value [] = none
value (c ∷ s) = value_from 0 (c ∷ s)

-- What fits into 64 bits.
abbrev pub in_limit : ℕ → Option ℕ → Option ℕ
in_limit limit none = none
in_limit limit (some n) = if leb n limit then some n else none

abbrev pub positive_of : Option ℕ → Option ℤ
positive_of none = none
positive_of (some n) = some (pos n)

abbrev pub negated : ℕ → ℤ
negated zero = pos 0
negated (suc n) = negsuc n

abbrev pub negative_of : Option ℕ → Option ℤ
negative_of none = none
negative_of (some n) = some (negated n)

unfoldable pub parse_int : Text → Option ℤ
parse_int [] = none
parse_int (c ∷ s) =
    if c == b'-'
    then negative_of (in_limit (2 ^ 63) (value s))
    else (if c == b'+'
        then positive_of (in_limit (2 ^ 63 - 1) (value s))
        else positive_of (in_limit (2 ^ 63 - 1) (value (c ∷ s))))

abbrev pub then_value : Option ℕ → Text → Option ℕ
then_value none s = none
then_value (some n) s = value_from n s

value_from-append : (n : ℕ) (s t : Text) → value_from n (s ++ t) ≡ then_value (value_from n s) t
value_from-append n [] t = refl
value_from-append n (c ∷ s) t = elim (Bool-cases (is_digit c)) [
  | inl e ↦ rw e (value_from-append (n * 10 + (c - 48)) s t)
  | inr e ↦ rw e refl
]

value_from-digits : (fuel n : ℕ) → n < fuel → value_from 0 (digits fuel n) ≡ some n
unfolding digits
value_from-digits zero n h = ground (arith, h)
value_from-digits (suc fuel) n h =
    if_cases (λ s. value_from 0 s ≡ some n) (ltb n 10) ((48 + n) ∷ [])
      (digits fuel (n / 10) ++ ((48 + n % 10) ∷ [])) (λ t. ground (arith, t))
      (λ t.
        value_from-append 0 (digits fuel (n / 10)) ((48 + n % 10) ∷ [])
        ∙ (ap (λ o. then_value o ((48 + n % 10) ∷ []))
              (value_from-digits fuel (n / 10) (ground (arith, h, t)))
            ∙ ground arith))

-- Every byte is a digit, and there is one.
digits-are : (fuel n : ℕ) → n < fuel → All (λ c. is_digit c ≡ true) (digits fuel n)
unfolding digits
digits-are zero n h = tt
digits-are (suc fuel) n h =
    if_cases (All (λ c. is_digit c ≡ true)) (ltb n 10) ((48 + n) ∷ [])
      (digits fuel (n / 10) ++ ((48 + n % 10) ∷ [])) (λ t. (ground (arith, t), tt))
      (λ t.
        All-append (λ c. is_digit c ≡ true) (digits fuel (n / 10)) ((48 + n % 10) ∷ [])
          (digits-are fuel (n / 10) (ground (arith, h, t))) (ground arith, tt))

of_value : (s : Text) → 0 < length s → value s ≡ value_from 0 s
of_value [] h = ground (arith, h)
of_value (c ∷ s) h = refl

digits_some : (fuel n : ℕ) → n < fuel → 0 < length (digits fuel n)
unfolding digits
digits_some zero n h = ground (arith, h)
digits_some (suc fuel) n h =
    if_cases (λ s. 0 < length s) (ltb n 10) ((48 + n) ∷ [])
      (digits fuel (n / 10) ++ ((48 + n % 10) ∷ [])) (λ t. omega arith)
      (λ t. omega (arith, length-append (digits fuel (n / 10)) ((48 + n % 10) ∷ [])))

value-digits : (n : ℕ) → value (digits (suc n) n) ≡ some n
value-digits n =
    of_value (digits (suc n) n) (digits_some (suc n) n (omega arith))
    ∙ value_from-digits (suc n) n (omega arith)

-- The range of a Go int.
abbrev pub IsInt64 : ℤ → Type 0
IsInt64 (pos n) = n < 2 ^ 63
IsInt64 (negsuc n) = n < 2 ^ 63

fits : (n : ℕ) → n < 2 ^ 63 → positive_of (in_limit (2 ^ 63 - 1) (some n)) ≡ some (pos n)
fits n h = ground (arith, h)

fits_negative :
    (n : ℕ) → n < 2 ^ 63 → negative_of (in_limit (2 ^ 63) (some (suc n))) ≡ some (negsuc n)
fits_negative n h = ground (arith, h)

unsigned :
    (s : Text) (n : ℕ)
    → All (λ c. is_digit c ≡ true) s
    → value s ≡ some n
    → n < 2 ^ 63
    → parse_int s ≡ some (pos n)
unfolding parse_int
unsigned [] n d v h = ground (arith, v)
unsigned (c ∷ s) n d v h =
    let plain : positive_of (in_limit (2 ^ 63 - 1) (value (c ∷ s))) ≡ some (pos n) =
      ap (λ o. positive_of (in_limit (2 ^ 63 - 1) o)) v ∙ fits n h in
    if_cases (λ r. r ≡ some (pos n)) (c == b'-') (negative_of (in_limit (2 ^ 63) (value s)))
      (if c == b'+'
        then positive_of (in_limit (2 ^ 63 - 1) (value s))
        else positive_of (in_limit (2 ^ 63 - 1) (value (c ∷ s))))
      (λ t. ground (arith, t, d.0))
      (λ _.
        if_cases (λ r. r ≡ some (pos n)) (c == b'+') (positive_of (in_limit (2 ^ 63 - 1) (value s)))
          (positive_of (in_limit (2 ^ 63 - 1) (value (c ∷ s)))) (λ t. ground (arith, t, d.0))
          (λ _. plain))

dashed :
    (s : Text) (n : ℕ)
    → value s ≡ some (suc n)
    → n < 2 ^ 63
    → parse_int (b'-' ∷ s) ≡ some (negsuc n)
unfolding parse_int
dashed s n v h = ap (λ o. negative_of (in_limit (2 ^ 63) o)) v ∙ fits_negative n h

-- A number in the range of a Go int is parsed as it was printed.
pub parse_int-print_int : (z : ℤ) → IsInt64 z → parse_int (print_int z) ≡ some z
unfolding print_int
parse_int-print_int (pos n) h =
    unsigned (digits (suc n) n) n (digits-are (suc n) n (omega arith)) (value-digits n) h
parse_int-print_int (negsuc n) h = dashed (digits (suc (suc n)) (suc n)) n (value-digits (suc n)) h

-- A printed number has none of the other bytes.
pub print_int-plain :
    (P : ℕ → Type 0) (z : ℤ) → ((c : ℕ) → is_digit c ≡ true → P c) → P b'-' → All P (print_int z)
unfolding print_int
print_int-plain P (pos n) f m =
    All-map (λ c. is_digit c ≡ true) P f (digits (suc n) n) (digits-are (suc n) n (omega arith))
print_int-plain P (negsuc n) f m = (
  m,
  All-map (λ c. is_digit c ≡ true) P f (digits (suc (suc n)) (suc n))
      (digits-are (suc (suc n)) (suc n) (omega arith)),
)

pub length-print_int : (z : ℤ) → 0 < length (print_int z)
unfolding print_int
length-print_int (pos n) = digits_some (suc n) n (omega arith)
length-print_int (negsuc n) = omega arith
