-- ===== src/Middleware/ClientIp/Spoofing.antt =====
-- What a caller can write into its headers does not choose its bucket
-- (`clientIdentifier`, backend/internal/middleware/ratelimit.go).
use mathlib.Core.List.{reverse, reverse-append, reverse-cons}
use skill_issues.Prelude.{
  ℕ, ◌≡◌, refl, sym, ap, ◌∙◌, Bool, true, false, not, inl, inr, none, some, List, [], ◌∷◌, ◌++◌,
  ◌==◌, ◌||◌, if◌then◌else◌, any, Bool-cases, Option-cases,
}
use skill_issues.Prelude.Text.{Text, trim_space}
use skill_issues.Middleware.ClientIp.{
  Ip, IpNet, Net, Request, cons_first, split_commas, is_trusted_proxy, walk_back, from_peer,
  peer_host, rate_limit_subject, client_identifier,
}

split_commas-cases : (s : Text) → (h : Text) × ((t : List Text) × (split_commas s ≡ h ∷ t))
split_commas-cases [] = ([], ([], refl))
split_commas-cases (c ∷ s) = elim (Bool-cases (c == b',')) [
  | inl comma ↦ ([], (split_commas s, rw comma))
  | inr other ↦ let (h, (t, e)) = split_commas-cases s in (c ∷ h, (t, rw (other, e)))
]

cons_first-append :
    (c : ℕ) (s : Text) (us : List Text)
    → cons_first c (split_commas s ++ us) ≡ cons_first c (split_commas s) ++ us
cons_first-append c s us = let (h, (t, e)) = split_commas-cases s in rw e

split_commas-append :
    (a b : Text) → split_commas (a ++ (b',' ∷ b)) ≡ split_commas a ++ split_commas b
split_commas-append [] b = refl
split_commas-append (c ∷ s) b = elim (Bool-cases (c == b',')) [
  | inl comma ↦ rw comma (ap (◌∷◌ []) (split_commas-append s b))
  | inr other ↦
      rw other
        (ap (cons_first c) (split_commas-append s b) ∙ cons_first-append c s (split_commas b))
]

any-append : (f : Text → Bool) (xs ys : List Text) → any f (xs ++ ys) ≡ (any f xs || any f ys)
any-append f [] ys = refl
any-append f (x ∷ xs) ys = elim (Bool-cases (f x)) [
  | inl hit ↦ rw hit
  | inr miss ↦ rw miss (any-append f xs ys)
]

or_true : (b : Bool) → (b || true) ≡ true
or_true true = refl
or_true false = refl

or_false : (b : Bool) → (b || false) ≡ b
or_false true = refl
or_false false = refl

any-reverse : (f : Text → Bool) (xs : List Text) → any f (reverse xs) ≡ any f xs
any-reverse f [] = refl
any-reverse f (x ∷ xs) = elim (Bool-cases (f x)) [
  | inl hit ↦ rw (reverse-cons, any-append, hit, any-reverse f xs) (or_true (any f xs))
  | inr miss ↦ rw (reverse-cons, any-append, miss, any-reverse f xs) (or_false (any f xs))
]

module _ (net : Net) (trusted : List IpNet) where
  -- An entry that ends the walk: no address, or one that is no proxy's.
  abbrev pub stops : Text → Bool
  stops e = not (is_trusted_proxy net trusted (trim_space e))

  walk_back-none :
      (e : Text) (es : List Text)
      → net.parse_ip (trim_space e) ≡ none
      → walk_back net trusted (e ∷ es) ≡ none
  unfolding walk_back
  walk_back-none e es nothing = rw (walk_back, nothing)

  walk_back-some :
      (e : Text) (es : List Text) (ip : Ip)
      → net.parse_ip (trim_space e) ≡ some ip
      → walk_back net trusted (e ∷ es) ≡ (
          if is_trusted_proxy net trusted (trim_space e)
          then walk_back net trusted es
          else some (rate_limit_subject ip))
  unfolding walk_back
  walk_back-some e es ip parsed = rw (walk_back, parsed)

  stops-proxy :
      (e : Text) (es : List Text)
      → is_trusted_proxy net trusted (trim_space e) ≡ true
      → any stops (e ∷ es) ≡ true
      → any stops es ≡ true
  stops-proxy e es proxy h = sym (rw proxy) ∙ h

  walk_back-append :
      (es more : List Text)
      → any stops es ≡ true
      → walk_back net trusted (es ++ more) ≡ walk_back net trusted es
  walk_back-append [] more h = cc
  walk_back-append (e ∷ es) more h = elim (Option-cases (net.parse_ip (trim_space e))) [
    | inl nothing ↦ walk_back-none e (es ++ more) nothing ∙ sym (walk_back-none e es nothing)
    | inr (ip, parsed) ↦ elim (Bool-cases (is_trusted_proxy net trusted (trim_space e))) [
      | inl proxy ↦
          rw (walk_back-some e (es ++ more) ip parsed, walk_back-some e es ip parsed, proxy)
            (walk_back-append es more (stops-proxy e es proxy h))
      | inr stop ↦ rw (walk_back-some e (es ++ more) ip parsed, walk_back-some e es ip parsed, stop)
    ]
  ]

  walk_back-forged :
      (forged own : Text)
      → any stops (split_commas own) ≡ true
      → walk_back net trusted (reverse (split_commas (forged ++ (b',' ∷ own))))
        ≡ walk_back net trusted (reverse (split_commas own))
  walk_back-forged forged own h =
      rw (split_commas-append, reverse-append)
        (walk_back-append (reverse (split_commas own)) (reverse (split_commas forged))
          (any-reverse stops (split_commas own) ∙ h))

  -- A forged prefix of X-Forwarded-For does not choose the caller's bucket: as long as the entries
  -- that the trusted proxies appended hold one that is no trusted proxy's address, the bucket is
  -- the same whatever text stands before them in the header.
  pub client_identifier-forged :
      (r : Request) (forged own : Text)
      → any stops (split_commas own) ≡ true
      → client_identifier net trusted (record r { forwarded_for = (forged ++ (b',' ∷ own)) ∷ [] })
        ≡ client_identifier net trusted (record r { forwarded_for = own ∷ [] })
  unfolding client_identifier
  client_identifier-forged r forged own h = rw (walk_back-forged forged own h)

  -- A caller that does not connect through a trusted proxy has the bucket of its own address: no
  -- header that it sends has an influence on it.
  pub client_identifier-direct :
      (r : Request) (headers : List Text) (header : Text)
      → is_trusted_proxy net trusted (peer_host net trusted r) ≡ false
      → client_identifier net trusted (record r { forwarded_for = headers; real_ip = header })
        ≡ from_peer net trusted (peer_host net trusted r)
  unfolding client_identifier
  client_identifier-direct r headers header h = rw h
