-- ===== src/Catalog/Cursor/RoundTrip.antt =====
-- A cursor that a page hands out is decoded as it was (backend/internal/issue/browse.go and
-- foryou.go).
use skill_issues.Prelude.{
  ℕ, ◌<◌, ◌≡◌, refl, ap, ◌∙◌, Bool, true, false, ◌&&◌, not, Option, none, some, List, [], ◌∷◌, ◌++◌,
  ◌==◌, if◌then◌else◌, if_cases, All, All-append, length, arith,
}
use skill_issues.Prelude.Int.{ℤ, pos, negsuc, ltb_ℤ}
use skill_issues.Prelude.Text.{Text, is_empty}
use skill_issues.Prelude.Decimal.{
  print_int, parse_int, IsInt64, parse_int-print_int, print_int-plain, length-print_int,
}
use skill_issues.Prelude.Base64.{base64_encode, IsByte, base64_decode-base64_encode}
use skill_issues.Catalog.Cursor.{
  Sort, unset, for_you, shuffle, easiest, newest, Cursor, zero_cursor, dot, join_dots, add_first,
  split_dots, score_text, flag, easiest_text, raw_text, encode, checked, with_int, is_positive,
  is_natural, is_int32, is_bit, with_id, with_updated, decode_parts, then_decode, decode_cursor,
}

abbrev IsPlain : ℕ → Type 0
IsPlain c = ((c == dot) ≡ false) × IsByte c

split-plain : (s : Text) → All IsPlain s → split_dots s ≡ s ∷ []
split-plain [] h = refl
split-plain (c ∷ s) h =
    if_cases (λ r. r ≡ (c ∷ s) ∷ []) (c == dot) ([] ∷ split_dots s) (add_first c (split_dots s))
      (λ t. ground (arith, t, h.0.0)) (λ _. ap (add_first c) (split-plain s h.1))

split-append : (s t : Text) → All IsPlain s → split_dots (s ++ (dot ∷ t)) ≡ s ∷ split_dots t
split-append [] t h = refl
split-append (c ∷ s) t h =
    if_cases (λ r. r ≡ (c ∷ s) ∷ split_dots t) (c == dot) ([] ∷ split_dots (s ++ (dot ∷ t)))
      (add_first c (split_dots (s ++ (dot ∷ t)))) (λ e. ground (arith, e, h.0.0))
      (λ _. ap (add_first c) (split-append s t h.1))

-- Fields without dots are found again.
split-join :
    (s : Text) (ts : List Text)
    → All IsPlain s
    → All (All IsPlain) ts
    → split_dots (join_dots s ts) ≡ s ∷ ts
split-join s [] h hs = split-plain s h
split-join s (t ∷ ts) h hs =
    split-append s (join_dots t ts) h ∙ ap (λ r. s ∷ r) (split-join t ts hs.0 hs.1)

plain-bytes : (s : Text) → All IsPlain s → All IsByte s
plain-bytes [] h = tt
plain-bytes (c ∷ s) h = (h.0.1, plain-bytes s h.1)

join-bytes :
    (s : Text) (ts : List Text) → All IsPlain s → All (All IsPlain) ts → All IsByte (join_dots s ts)
join-bytes s [] h hs = plain-bytes s h
join-bytes s (t ∷ ts) h hs =
    All-append IsByte s (dot ∷ join_dots t ts) (plain-bytes s h)
      (omega arith, join-bytes t ts hs.0 hs.1)

IsPlain-int : (z : ℤ) → All IsPlain (print_int z)
IsPlain-int z = print_int-plain IsPlain z (λ c h. ground (arith, h)) (refl, omega arith)

IsPlain-score : (o : Option ℤ) → All IsPlain (score_text o)
IsPlain-score none = tt
IsPlain-score (some z) = IsPlain-int z

-- A token of such fields is decoded as the fields.
decode-fields :
    (s : Text) (ts : List Text)
    → All IsPlain s
    → All (All IsPlain) ts
    → decode_cursor (base64_encode (join_dots s ts)) ≡ decode_parts (s ∷ ts)
unfolding decode_cursor
decode-fields s ts h hs =
    ap then_decode (base64_decode-base64_encode (join_dots s ts) (join-bytes s ts h hs))
    ∙ ap decode_parts (split-join s ts h hs)

read-int : (z : ℤ) (f : ℤ → Option Cursor) → IsInt64 z → with_int (parse_int (print_int z)) f ≡ f z
read-int z f h = ap (λ o. with_int o f) (parse_int-print_int z h)

read-checked :
    (p : ℤ → Bool) (z : ℤ) (f : ℤ → Option Cursor)
    → p z ≡ true
    → IsInt64 z
    → with_int (checked p (parse_int (print_int z))) f ≡ f z
read-checked p z f e h =
    ap (λ o. with_int (checked p o) f) (parse_int-print_int z h)
    ∙ if_cases (λ o. with_int o f ≡ f z) (p z) (some z) none (λ _. refl) (λ t. ground (arith, e, t))

abbrev FitsScore : Option ℤ → Type 0
FitsScore none = Unit
FitsScore (some z) = IsInt64 z

-- Every number is one that a Go int or int64 holds.
pub record Fits (c : Cursor) : Type 0 where
  pub bucket : IsInt64 c.bucket
  pub score : FitsScore c.score
  pub updated : IsInt64 c.updated
  pub id : IsInt64 c.id
  pub key : IsInt64 c.key
  pub seed : IsInt64 c.seed
  pub start : IsInt64 c.start
  pub offset : IsInt64 c.offset

-- The fields that a sort uses are what a page hands out: the position is that of an issue or a
-- repository, or of the top for the For you walk.
abbrev pub IsInRange : Sort → Cursor → Type 0
IsInRange newest c = is_positive c.id ≡ true
IsInRange shuffle c = is_positive c.id ≡ true
IsInRange easiest c = (is_bit c.bucket ≡ true) × (is_positive c.id ≡ true)
IsInRange unset c = (is_bit c.bucket ≡ true) × (is_positive c.id ≡ true)
IsInRange for_you c =
    (is_natural c.seed ≡ true)
    × (((is_natural c.start && is_int32 c.start) ≡ true)
        × (((not (ltb_ℤ c.key (negsuc 0)) && is_int32 c.key) ≡ true)
            × ((is_natural c.id ≡ true) × (is_natural c.offset ≡ true))))

abbrev pub as_easiest : Cursor → Cursor
as_easiest c = record zero_cursor {
  sort = easiest;
  bucket = c.bucket;
  score = c.score;
  updated = c.updated;
  id = c.id;
}

-- The cursor with the fields that its sort does not use at zero; easiest is the default sort.
abbrev pub meaningful : Sort → Cursor → Cursor
meaningful newest c = record zero_cursor { sort = newest; updated = c.updated; id = c.id }
meaningful shuffle c = record zero_cursor { sort = shuffle; key = c.key; id = c.id }
meaningful easiest c = as_easiest c
meaningful unset c = as_easiest c
meaningful for_you c = record zero_cursor {
  sort = for_you;
  seed = c.seed;
  start = c.start;
  key = c.key;
  id = c.id;
  offset = c.offset;
  wrapped = c.wrapped;
}

read-id :
    (z : ℤ) (c : Cursor)
    → is_positive z ≡ true
    → IsInt64 z
    → with_id (print_int z) c ≡ some (record c { id = z })
read-id z c e h = read-checked is_positive z (λ id. some (record c { id = id })) e h

read-updated :
    (u z : ℤ) (c : Cursor)
    → IsInt64 u
    → is_positive z ≡ true
    → IsInt64 z
    → with_updated (print_int u) (print_int z) c ≡ some (record c { updated = u; id = z })
read-updated u z c hu e h =
    read-int u (λ u. with_id (print_int z) (record c { updated = u })) hu
    ∙ read-id z (record c { updated = u }) e h

not_empty : (s : Text) → 0 < length s → is_empty s ≡ false
not_empty [] h = ground (arith, h)
not_empty (c ∷ s) h = refl

-- The text of a score is empty without one, and its number otherwise.
read-score :
    (o : Option ℤ) (u z : ℤ) (c : Cursor)
    → FitsScore o
    → IsInt64 u
    → is_positive z ≡ true
    → IsInt64 z
    → c.score ≡ none
    → (if is_empty (score_text o)
        then with_updated (print_int u) (print_int z) c
        else with_int
            (parse_int (score_text o))
            (λ s. with_updated (print_int u) (print_int z) (record c { score = some s })))
      ≡ some (record c { score = o; updated = u; id = z })
read-score none u z c f hu e h n =
    read-updated u z c hu e h ∙ ap (λ s. some (record c { score = s; updated = u; id = z })) n
read-score (some s) u z c f hu e h n = rw (not_empty (print_int s) (length-print_int s)) (
    read-int s (λ s. with_updated (print_int u) (print_int z) (record c { score = some s })) f
    ∙ read-updated u z (record c { score = some s }) hu e h)

easiest-back :
    (c : Cursor)
    → IsInRange easiest c
    → Fits c
    → decode_cursor (base64_encode (easiest_text c)) ≡ some (meaningful easiest c)
easiest-back c r f =
    decode-fields (print_int c.bucket)
      (score_text c.score ∷ print_int c.updated ∷ print_int c.id ∷ []) (IsPlain-int c.bucket)
      (IsPlain-score c.score, (IsPlain-int c.updated, (IsPlain-int c.id, tt)))
    ∙ (read-checked is_bit c.bucket
          (λ b.
            let c' = record zero_cursor { sort = easiest; bucket = b } in
            if is_empty (score_text c.score)
            then with_updated (print_int c.updated) (print_int c.id) c'
            else with_int (parse_int (score_text c.score)) (λ s.
              with_updated (print_int c.updated) (print_int c.id) (record c' { score = some s })))
          r.0 f.bucket
        ∙ read-score c.score c.updated c.id
            (record zero_cursor { sort = easiest; bucket = c.bucket }) f.score f.updated r.1 f.id
            refl)

flag_back : (b : Bool) → ltb_ℤ (pos 0) (flag b) ≡ b
flag_back true = refl
flag_back false = refl

flag-IsInt64 : (b : Bool) → IsInt64 (flag b)
flag-IsInt64 true = omega arith
flag-IsInt64 false = omega arith

flag_bit : (b : Bool) → is_bit (flag b) ≡ true
flag_bit true = refl
flag_bit false = refl

for_you-back :
    (c : Cursor)
    → IsInRange for_you c
    → Fits c
    → decode_cursor (base64_encode (raw_text for_you c)) ≡ some (meaningful for_you c)
for_you-back c r f =
    decode-fields (b'y' ∷ [])
      (print_int c.seed
        ∷ print_int c.start
        ∷ print_int c.key
        ∷ print_int c.id
        ∷ print_int c.offset
        ∷ print_int (flag c.wrapped)
        ∷ [])
      ((refl, omega arith), tt)
      (
        IsPlain-int c.seed,
        (
          IsPlain-int c.start,
          (
            IsPlain-int c.key,
            (IsPlain-int c.id, (IsPlain-int c.offset, (IsPlain-int (flag c.wrapped), tt))),
          ),
        ),
      )
    ∙ (read-checked is_natural c.seed _ r.0 f.seed
        ∙ (read-checked (λ z. is_natural z && is_int32 z) c.start _ r.1.0 f.start
            ∙ (read-checked (λ z. not (ltb_ℤ z (negsuc 0)) && is_int32 z) c.key _ r.1.1.0 f.key
                ∙ (read-checked is_natural c.id _ r.1.1.1.0 f.id
                    ∙ (read-checked is_natural c.offset _ r.1.1.1.1 f.offset
                        ∙ (read-checked is_bit (flag c.wrapped) _ (flag_bit c.wrapped)
                              (flag-IsInt64 c.wrapped)
                            ∙ ap (λ w. some (record (meaningful for_you c) { wrapped = w }))
                                (flag_back c.wrapped)))))))

sort-back :
    (s : Sort) (c : Cursor)
    → IsInRange s c
    → Fits c
    → decode_cursor (base64_encode (raw_text s c)) ≡ some (meaningful s c)
sort-back newest c r f =
    decode-fields (b'n' ∷ []) (print_int c.updated ∷ print_int c.id ∷ []) ((refl, omega arith), tt)
      (IsPlain-int c.updated, (IsPlain-int c.id, tt))
    ∙ (read-int c.updated
          (λ u. with_id (print_int c.id) (record zero_cursor { sort = newest; updated = u }))
          f.updated
        ∙ read-id c.id (record zero_cursor { sort = newest; updated = c.updated }) r f.id)
sort-back shuffle c r f =
    decode-fields (b's' ∷ []) (print_int c.key ∷ print_int c.id ∷ []) ((refl, omega arith), tt)
      (IsPlain-int c.key, (IsPlain-int c.id, tt))
    ∙ (read-int c.key
          (λ k. with_id (print_int c.id) (record zero_cursor { sort = shuffle; key = k })) f.key
        ∙ read-id c.id (record zero_cursor { sort = shuffle; key = c.key }) r f.id)
sort-back easiest c r f = easiest-back c r f
sort-back unset c r f = easiest-back c r f
sort-back for_you c r f = for_you-back c r f

-- The token of a cursor whose numbers fit into Go's and whose fields are in the range of its sort is
-- decoded, and as that cursor with the fields that its sort does not use at zero.
pub decode_cursor-encode :
    (c : Cursor)
    → IsInRange c.sort c
    → Fits c
    → decode_cursor (encode c) ≡ some (meaningful c.sort c)
unfolding encode
decode_cursor-encode c r f = sort-back c.sort c r f
