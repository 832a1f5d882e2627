-- ===== src/Examples/Feed.antt =====
-- Runs of the feeds and their cursors (backend/internal/issue/shuffle.go, browse.go and foryou.go).
use skill_issues.Prelude.{
  ℕ, ◌+◌, ◌-◌, Bool, false, ◌≡◌, refl, true, none, some, List, [], ◌∷◌, ltb, arith,
}
use skill_issues.Prelude.Int.{pos, negsuc}
use skill_issues.Prelude.Text.{ascii}
use skill_issues.Prelude.Decimal.{print_int, parse_int, digits}
use skill_issues.Prelude.Base64.{base64_encode, base64_decode}
use skill_issues.Catalog.Shuffle.{Slot, Budget, shuffle_walk, walk_loop, shuffle_from_matches}
use skill_issues.Catalog.Shuffle.Order.{IsOrdered}
use skill_issues.Catalog.Shuffle.Pages.{read_pages, read_pages-feed}
use mathlib.Core.List.{Perm}
use skill_issues.Prelude.Sort.{sort_stable, insert_by}
use skill_issues.Catalog.ForYou.{for_you_page, fill_page, draw_chunk, draw_for_you}
use skill_issues.Catalog.ForYou.Reading.{read_walk, read_walk-perm}
use skill_issues.Catalog.Cursor.{for_you, easiest, Cursor, zero_cursor, encode, decode_cursor}
use skill_issues.Catalog.Cursor.RoundTrip.{decode_cursor-encode}

abbrev slot : ℕ → ℕ → ℕ → Slot
slot key repo issue = record { key = key; repo = repo; issue = issue }

-- Two repositories share a key, and one has no matching issue.
abbrev index : List Slot
index = slot 3 8 41 ∷ slot 5 2 0 ∷ slot 5 9 42 ∷ slot 7 1 43 ∷ slot 9 4 44 ∷ []

index-IsOrdered : IsOrdered index
index-IsOrdered = (
  (refl, (refl, (refl, (refl, tt)))),
  ((refl, (refl, (refl, tt))), ((refl, (refl, tt)), ((refl, tt), (tt, tt)))),
)

-- A walk that stops after its first batch, for the matches or because its time is over.
abbrev budget : ℕ → Budget
budget n = record { max_repos = 2; is_late = λ walked. ltb 3 walked; matches_late = ltb 4 n }

abbrev one : ℕ → ℕ
one n = 1

first_page : shuffle_walk index (budget 6) none 1 ≡ (slot 3 8 41 ∷ [], some (3, 8))
unfolding shuffle_walk walk_loop shuffle_from_matches
first_page = refl

read_pages-feed_example :
    read_pages 6 index budget one none ≡ slot 3 8 41 ∷ slot 5 9 42 ∷ slot 7 1 43 ∷ slot 9 4 44 ∷ []
read_pages-feed_example = read_pages-feed index index-IsOrdered budget one (λ n. omega arith)

-- An easiest cursor without a score, and one of the For you walk past the end of the order.
abbrev unrated : Cursor
unrated = record zero_cursor {
  sort = easiest;
  bucket = pos 1;
  updated = pos 1700000000000000;
  id = pos 77;
}

unrated_token : base64_decode (encode unrated) ≡ some (ascii "1..1700000000000000.77")
unfolding encode base64_encode base64_decode print_int digits
unrated_token = refl

abbrev wrapped_walk : Cursor
wrapped_walk = record zero_cursor {
  sort = for_you;
  seed = pos 12;
  start = pos 5;
  key = negsuc 0;
  offset = pos 3;
  wrapped = true;
}

decode_cursor-encode_example : decode_cursor (encode wrapped_walk) ≡ some wrapped_walk
decode_cursor-encode_example =
    decode_cursor-encode wrapped_walk (refl, (refl, (refl, (refl, refl))))
      (record {
        bucket = omega arith;
        score = tt;
        updated = omega arith;
        id = omega arith;
        key = omega arith;
        seed = omega arith;
        start = omega arith;
        offset = omega arith;
      })

-- A bucket out of range and an issue of 0 are refused.
bad_bucket : decode_cursor (base64_encode (ascii "2..5.7")) ≡ none
unfolding decode_cursor base64_encode base64_decode parse_int
bad_bucket = refl

bad_id : decode_cursor (base64_encode (ascii "n.5.0")) ≡ none
unfolding decode_cursor base64_encode base64_decode parse_int
bad_id = refl

-- The For you walk of seed 6: it starts at key 6, goes round the end and stops before it.
abbrev above : ℕ → ℕ → ℕ → Bool
above seed a b = ltb (b + 41 - a) 2

abbrev whole : Budget
whole = record { max_repos = 0; is_late = λ walked. false; matches_late = false }

abbrev two : ℕ → ℕ
two n = 2

first_ids : for_you_page above index whole 3 6 3 none ≡ (
  43 ∷ 44 ∷ 41 ∷ [],
  some (record { seed = 6; start = 6; key = negsuc 0; id = 0; offset = 1; wrapped = true }),
)
unfolding for_you_page fill_page draw_chunk draw_for_you sort_stable insert_by shuffle_walk
    walk_loop shuffle_from_matches
first_ids = refl

read_walk-perm_example : Perm (read_walk above index whole 3 6 two 24 none) (41 ∷ 42 ∷ 43 ∷ 44 ∷ [])
read_walk-perm_example =
    read_walk-perm above index whole 3 6 two (λ n. omega arith) index-IsOrdered
      (omega arith, (omega arith, (omega arith, (omega arith, (omega arith, tt)))))
