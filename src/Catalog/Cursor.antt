-- ===== src/Catalog/Cursor.antt =====
-- Page cursors and their tokens (`Cursor`, `Encode` and `DecodeCursor` of
-- backend/internal/issue/browse.go, `decodeForYou` of foryou.go and `ParseSort` of filters.go).
pub mod RoundTrip
use skill_issues.Prelude.{
  ℕ, ◌+◌, ◌-◌, ◌^◌, Bool, true, false, not, ◌&&◌, ◌||◌, Option, none, some, List, [], ◌∷◌, ◌++◌,
  ltb, leb, ◌==◌, if◌then◌else◌,
}
use skill_issues.Prelude.Int.{ℤ, pos, negsuc, ltb_ℤ}
use skill_issues.Prelude.Text.{Text, ascii, text_eq, is_empty, to_lower, trim_space}
use skill_issues.Prelude.Decimal.{print_int, parse_int}
use skill_issues.Prelude.Base64.{base64_encode, base64_decode}

-- The sort of a zero Cursor is the empty text, `unset`.
pub data Sort : Type 0 where
  unset for_you shuffle easiest newest : Sort

pub record Cursor : Type 0 where
  pub sort : Sort
  pub bucket : ℤ
  pub score : Option ℤ
  pub updated : ℤ
  pub id : ℤ
  pub key : ℤ
  pub seed : ℤ
  pub start : ℤ
  pub offset : ℤ
  pub wrapped : Bool

abbrev pub zero_cursor : Cursor
zero_cursor = record {
  sort = unset;
  bucket = pos 0;
  score = none;
  updated = pos 0;
  id = pos 0;
  key = pos 0;
  seed = pos 0;
  start = pos 0;
  offset = pos 0;
  wrapped = false;
}

-- `ParseSort`
unfoldable pub parse_sort : Text → Option Sort
parse_sort s =
    let t = to_lower (trim_space s) in
    if is_empty t
    then some unset
    else (if text_eq t (ascii "foryou")
        then some for_you
        else (if text_eq t (ascii "shuffle")
            then some shuffle
            else (if text_eq t (ascii "easiest")
                then some easiest
                else (if text_eq t (ascii "newest") then some newest else none))))

abbrev pub dot : ℕ
dot = b'.'

-- Fields between dots.
abbrev pub join_dots : Text → List Text → Text
join_dots s [] = s
join_dots s (t ∷ ts) = s ++ (dot ∷ join_dots t ts)

abbrev pub add_first : ℕ → List Text → List Text
add_first c [] = (c ∷ []) ∷ []
add_first c (s ∷ ss) = (c ∷ s) ∷ ss

-- strings.Split(s, ".")
abbrev pub split_dots : Text → List Text
split_dots [] = [] ∷ []
split_dots (c ∷ s) = let rest = split_dots s in if c == dot then [] ∷ rest else add_first c rest

abbrev pub score_text : Option ℤ → Text
score_text none = []
score_text (some z) = print_int z

abbrev pub flag : Bool → ℤ
flag true = pos 1
flag false = pos 0

abbrev pub easiest_text : Cursor → Text
easiest_text c =
    join_dots (print_int c.bucket) (score_text c.score ∷ print_int c.updated ∷ print_int c.id ∷ [])

abbrev pub raw_text : Sort → Cursor → Text
raw_text newest c = join_dots (b'n' ∷ []) (print_int c.updated ∷ print_int c.id ∷ [])
raw_text shuffle c = join_dots (b's' ∷ []) (print_int c.key ∷ print_int c.id ∷ [])
raw_text for_you c = join_dots (b'y' ∷ []) (
    print_int c.seed
    ∷ print_int c.start
    ∷ print_int c.key
    ∷ print_int c.id
    ∷ print_int c.offset
    ∷ print_int (flag c.wrapped)
    ∷ [])
raw_text easiest c = easiest_text c
raw_text unset c = easiest_text c

-- `Encode`
unfoldable pub encode : Cursor → Text
encode c = base64_encode (raw_text c.sort c)

-- A number that passes a check.
abbrev pub checked : (ℤ → Bool) → Option ℤ → Option ℤ
checked p none = none
checked p (some z) = if p z then some z else none

-- What is made of a number, unless it is an error.
abbrev pub with_int : Option ℤ → (ℤ → Option Cursor) → Option Cursor
with_int none f = none
with_int (some z) f = f z

abbrev pub is_positive : ℤ → Bool
is_positive z = ltb_ℤ (pos 0) z

abbrev pub is_natural : ℤ → Bool
is_natural z = not (ltb_ℤ z (pos 0))

-- `math.MaxInt32` at most.
abbrev pub is_int32 : ℤ → Bool
is_int32 z = not (ltb_ℤ (pos 2147483647) z)

abbrev pub is_bit : ℤ → Bool
is_bit z = is_natural z && not (ltb_ℤ (pos 1) z)

-- The last part, of every sort but for you.
abbrev pub with_id : Text → Cursor → Option Cursor
with_id s c = with_int (checked is_positive (parse_int s)) (λ id. some (record c { id = id }))

abbrev pub decode_newest : Text → Text → Option Cursor
decode_newest updated id =
    with_int (parse_int updated)
      (λ u. with_id id (record zero_cursor { sort = newest; updated = u }))

abbrev pub decode_shuffle : Text → Text → Option Cursor
decode_shuffle key id =
    with_int (parse_int key) (λ k. with_id id (record zero_cursor { sort = shuffle; key = k }))

abbrev pub with_updated : Text → Text → Cursor → Option Cursor
with_updated updated id c =
    with_int (parse_int updated) (λ u. with_id id (record c { updated = u }))

abbrev pub decode_easiest : Text → Text → Text → Text → Option Cursor
decode_easiest bucket score updated id = with_int (checked is_bit (parse_int bucket)) (λ b.
    let c = record zero_cursor { sort = easiest; bucket = b } in
    if is_empty score
    then with_updated updated id c
    else with_int (parse_int score) (λ z. with_updated updated id (record c { score = some z })))

-- `decodeForYou`
abbrev pub decode_for_you : Text → Text → Text → Text → Text → Text → Option Cursor
decode_for_you seed start key id offset wrapped =
    with_int (checked is_natural (parse_int seed)) (λ n0.
      with_int (checked (λ z. is_natural z && is_int32 z) (parse_int start)) (λ n1.
        with_int (checked (λ z. not (ltb_ℤ z (negsuc 0)) && is_int32 z) (parse_int key)) (λ n2.
          with_int (checked is_natural (parse_int id)) (λ n3.
            with_int (checked is_natural (parse_int offset)) (λ n4.
              with_int (checked is_bit (parse_int wrapped)) (λ n5. some (record zero_cursor {
                sort = for_you;
                seed = n0;
                start = n1;
                key = n2;
                id = n3;
                offset = n4;
                wrapped = ltb_ℤ (pos 0) n5;
              })))))))

abbrev pub decode_parts : List Text → Option Cursor
decode_parts (p ∷ a ∷ b ∷ []) =
    if text_eq p (b'n' ∷ [])
    then decode_newest a b
    else (if text_eq p (b's' ∷ []) then decode_shuffle a b else none)
decode_parts (p ∷ a ∷ b ∷ c ∷ []) = decode_easiest p a b c
decode_parts (p ∷ a ∷ b ∷ c ∷ d ∷ e ∷ f ∷ []) =
    if text_eq p (b'y' ∷ []) then decode_for_you a b c d e f else none
decode_parts _ = none

abbrev pub then_decode : Option Text → Option Cursor
then_decode none = none
then_decode (some raw) = decode_parts (split_dots raw)

-- `DecodeCursor`; none is ErrBadCursor.
unfoldable pub decode_cursor : Text → Option Cursor
decode_cursor token = then_decode (base64_decode token)
