-- ===== src/Prelude/Base64.antt =====
-- Go's base64.RawURLEncoding: the URL alphabet, without padding.
use Prim.Native.Nat.{ℕ, ◌+◌, ◌-◌, ◌*◌, ◌/◌, ◌%◌, ◌<◌}
use mathlib.Core.Path.{◌≡◌, refl, ap, ◌∙◌}
use mathlib.Core.Bool.{Bool, true, not, ◌&&◌, ◌||◌}
use mathlib.Core.Option.{Option, none, some}
use mathlib.Core.List.{List, [], ◌∷◌, map}
use native.Mathlib.Omega.{arith}
use skill_issues.Prelude.Tests.{ltb, leb, ◌==◌, if◌then◌else◌, if_cases}
use skill_issues.Prelude.Lists.{All, keep}
use skill_issues.Prelude.Text.{Text}

-- The byte for six bits: A-Z, a-z, 0-9, '-' and '_'.
abbrev pub sextet_byte : ℕ → ℕ
sextet_byte s =
    if ltb s 26
    then 65 + s
    else (if ltb s 52 then 71 + s else (if ltb s 62 then s - 4 else (if s == 62 then 45 else 95)))

abbrev pub byte_sextet : ℕ → Option ℕ
byte_sextet c =
    if leb 65 c && leb c 90
    then some (c - 65)
    else (if leb 97 c && leb c 122
        then some (c - 71)
        else (if leb 48 c && leb c 57
            then some (c + 4)
            else (if c == 45 then some 62 else (if c == 95 then some 63 else none))))

-- Three bytes are four sextets; the bits that are short at the end are 0.
abbrev pub sextets : Text → List ℕ
sextets [] = []
sextets (a ∷ []) = a / 4 ∷ a % 4 * 16 ∷ []
sextets (a ∷ b ∷ []) = a / 4 ∷ (a % 4 * 16 + b / 16) ∷ b % 16 * 4 ∷ []
sextets (a ∷ b ∷ c ∷ s) = a / 4 ∷ (a % 4 * 16 + b / 16) ∷ (b % 16 * 4 + c / 64) ∷ c % 64 ∷ sextets s

unfoldable pub base64_encode : Text → Text
base64_encode s = map sextet_byte (sextets s)

abbrev pub cons_sextet : Option ℕ → Option (List ℕ) → Option (List ℕ)
cons_sextet (some x) (some xs) = some (x ∷ xs)
cons_sextet (some x) none = none
cons_sextet none xs = none

abbrev pub cons_three : ℕ → ℕ → ℕ → Option Text → Option Text
cons_three a b c none = none
cons_three a b c (some s) = some (a ∷ b ∷ c ∷ s)

abbrev pub all_sextets : Text → Option (List ℕ)
all_sextets [] = some []
all_sextets (c ∷ s) = cons_sextet (byte_sextet c) (all_sextets s)

-- The bits beyond the last byte are not looked at; a single sextet is an error.
abbrev pub join_sextets : List ℕ → Option Text
join_sextets [] = some []
join_sextets (x ∷ []) = none
join_sextets (x ∷ y ∷ []) = some ((x * 4 + y / 16) ∷ [])
join_sextets (x ∷ y ∷ z ∷ []) = some ((x * 4 + y / 16) ∷ (y % 16 * 16 + z / 4) ∷ [])
join_sextets (x ∷ y ∷ z ∷ w ∷ s) =
    cons_three (x * 4 + y / 16) (y % 16 * 16 + z / 4) (z % 4 * 64 + w) (join_sextets s)

abbrev pub then_join : Option (List ℕ) → Option Text
then_join none = none
then_join (some xs) = join_sextets xs

-- `DecodeString` passes over line ends.
unfoldable pub base64_decode : Text → Option Text
base64_decode s = then_join (all_sextets (keep (λ c. not (c == 10 || c == 13)) s))

abbrev pub IsByte : ℕ → Type 0
IsByte c = c < 256

sextet_back : (s : ℕ) → s < 64 → byte_sextet (sextet_byte s) ≡ some s
sextet_back s h = ground (arith, h)

abbrev no_line_end : ℕ → Bool
no_line_end c = not (c == 10 || c == 13)

sextet_byte-kept : (s : ℕ) → no_line_end (sextet_byte s) ≡ true
sextet_byte-kept s = ground arith

keep-sextet_bytes : (xs : List ℕ) → keep no_line_end (map sextet_byte xs) ≡ map sextet_byte xs
keep-sextet_bytes [] = refl
keep-sextet_bytes (x ∷ xs) =
    if_cases (λ r. r ≡ sextet_byte x ∷ map sextet_byte xs) (no_line_end (sextet_byte x))
      (sextet_byte x ∷ keep no_line_end (map sextet_byte xs))
      (keep no_line_end (map sextet_byte xs))
      (λ _. ap (λ r. sextet_byte x ∷ r) (keep-sextet_bytes xs))
      (λ t. ground (arith, t, sextet_byte-kept x))

abbrev IsSextet : ℕ → Type 0
IsSextet x = x < 64

all_sextets-bytes : (xs : List ℕ) → All IsSextet xs → all_sextets (map sextet_byte xs) ≡ some xs
all_sextets-bytes [] h = refl
all_sextets-bytes (x ∷ xs) h =
    ap (λ o. cons_sextet o (all_sextets (map sextet_byte xs))) (sextet_back x h.0)
    ∙ ap (cons_sextet (some x)) (all_sextets-bytes xs h.1)

sextets-IsSextet : (s : Text) → All IsByte s → All IsSextet (sextets s)
sextets-IsSextet [] h = tt
sextets-IsSextet (a ∷ []) h = (omega (arith, h.0), (omega arith, tt))
sextets-IsSextet (a ∷ b ∷ []) h = (omega (arith, h.0), (omega (arith, h.1.0), (omega arith, tt)))
sextets-IsSextet (a ∷ b ∷ c ∷ s) h = (
  omega (arith, h.0),
  (omega (arith, h.1.0), (omega (arith, h.1.1.0), (omega arith, sextets-IsSextet s h.1.1.1))),
)

first_byte : (a b : ℕ) → b < 16 → a / 4 * 4 + (a % 4 * 16 + b) / 16 ≡ a
first_byte a b h = omega (arith, h)

second_byte :
    (a b c : ℕ) → a < 4 → b < 256 → c < 4 → (a * 16 + b / 16) % 16 * 16 + (b % 16 * 4 + c) / 4 ≡ b
second_byte a b c h k l = omega (arith, h, k, l)

third_byte : (b c : ℕ) → c < 256 → (b % 16 * 4 + c / 64) % 4 * 64 + c % 64 ≡ c
third_byte b c h = omega (arith, h)

three_bytes :
    {a a' b b' c c' : ℕ} {s : Text}
    → a ≡ a'
    → b ≡ b'
    → c ≡ c'
    → some (a ∷ b ∷ c ∷ s) ≡ some (a' ∷ b' ∷ c' ∷ s)
three_bytes {s} e f g = λ i. some (e i ∷ f i ∷ g i ∷ s)

last_byte : (a : ℕ) → a / 4 * 4 + a % 4 * 16 / 16 ≡ a
last_byte a = omega arith

last_second : (a b : ℕ) → b < 256 → (a % 4 * 16 + b / 16) % 16 * 16 + b % 16 * 4 / 4 ≡ b
last_second a b h = omega (arith, h)

join_sextets-sextets : (s : Text) → All IsByte s → join_sextets (sextets s) ≡ some s
join_sextets-sextets [] h = refl
join_sextets-sextets (a ∷ []) h = ap (λ x. some (x ∷ [])) (last_byte a)
join_sextets-sextets (a ∷ b ∷ []) h =
    ap (λ x. some (x ∷ ((a % 4 * 16 + b / 16) % 16 * 16 + b % 16 * 4 / 4) ∷ []))
      (first_byte a (b / 16) (omega (arith, h.1.0)))
    ∙ ap (λ y. some (a ∷ y ∷ [])) (last_second a b h.1.0)
join_sextets-sextets (a ∷ b ∷ c ∷ s) h =
    ap
      (cons_three (a / 4 * 4 + (a % 4 * 16 + b / 16) / 16)
        ((a % 4 * 16 + b / 16) % 16 * 16 + (b % 16 * 4 + c / 64) / 4)
        ((b % 16 * 4 + c / 64) % 4 * 64 + c % 64))
      (join_sextets-sextets s h.1.1.1)
    ∙ three_bytes (first_byte a (b / 16) (omega (arith, h.1.0)))
        (second_byte (a % 4) b (c / 64) (omega arith) h.1.0 (omega (arith, h.1.1.0)))
        (third_byte b c h.1.1.0)

-- What was encoded is decoded.
pub base64_decode-base64_encode :
    (s : Text) → All IsByte s → base64_decode (base64_encode s) ≡ some s
unfolding base64_decode base64_encode
base64_decode-base64_encode s h =
    ap (λ t. then_join (all_sextets t)) (keep-sextet_bytes (sextets s))
    ∙ (ap then_join (all_sextets-bytes (sextets s) (sextets-IsSextet s h))
        ∙ join_sextets-sextets s h)
