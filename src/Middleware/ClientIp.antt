-- ===== src/Middleware/ClientIp.antt =====
-- `clientIdentifier`, `isTrustedProxy`, `rateLimitSubject` and `ClientKey`
-- (backend/internal/middleware/ratelimit.go). Package net reads addresses from text: `Net` is its
-- parser. An address is read into 4 bytes or into two halves of 8 (an IPv4-mapped one is an IPv4
-- one, as `To4` has it), and a text that names a bucket is the value that it names.
pub mod Spoofing
use skill_issues.Prelude.{
  ℕ, ◌+◌, ◌*◌, ◌-◌, ◌/◌, ◌^◌, ◌<◌, ◌≡◌, Bool, true, false, Option, none, some, List, [], ◌∷◌, ◌++◌,
  ltb, ◌==◌, if◌then◌else◌, any,
}
use mathlib.Core.List.{reverse}
use skill_issues.Prelude.Text.{Text, trim_space}

pub data Ip : Type 0 where
  v4 : ℕ → Ip
  v6 : ℕ → ℕ → Ip

-- A CIDR block: an address and the length of its prefix.
pub record IpNet : Type 0 where
  pub ip : Ip
  pub ones : ℕ

pub record Net : Type 0 where
  pub parse_ip : Text → Option Ip
  pub split_host_port : Text → Option Text

-- The first `ones` of `bits` bits agree.
abbrev pub same_prefix : ℕ → ℕ → ℕ → ℕ → Bool
same_prefix bits ones a b = a / 2 ^ (bits - ones) == b / 2 ^ (bits - ones)

abbrev pub v6_number : ℕ → ℕ → ℕ
v6_number hi lo = hi * 2 ^ 64 + lo

abbrev pub same_network : ℕ → Ip → Ip → Bool
same_network ones (v4 a) (v4 b) = same_prefix 32 ones a b
same_network ones (v6 h l) (v6 h' l') = same_prefix 128 ones (v6_number h l) (v6_number h' l')
same_network ones _ _ = false

-- (*net.IPNet).Contains: never across the two families.
unfoldable pub net_contains : IpNet → Ip → Bool
net_contains n ip = same_network n.ones n.ip ip

-- `ParseTrustedProxies`: a text that `parse_cidr` does not read is an error.
unfoldable pub parse_trusted_proxies : (Text → Option IpNet) → List Text → Option (List IpNet)
unfolding trim_space
parse_trusted_proxies parse_cidr [] = some []
parse_trusted_proxies parse_cidr (c ∷ cs) =
    let rest = parse_trusted_proxies parse_cidr cs in
    elim (parse_cidr (trim_space c)) [
      | none ↦ none
      | some block ↦ elim rest [ none ↦ none | some blocks ↦ some (block ∷ blocks) ]
    ]

-- The string that a bucket is keyed by: an IPv4 address, an IPv6 /64, or the peer as it stands.
pub data Subject : Type 0 where
  address : ℕ → Subject
  network64 : ℕ → Subject
  peer : Text → Subject

unfoldable pub rate_limit_subject : Ip → Subject
rate_limit_subject (v4 a) = address a
rate_limit_subject (v6 hi lo) = network64 hi

pub record Request : Type 0 where
  pub remote_addr : Text
  pub forwarded_for : List Text
  pub real_ip : Text
  pub user_id : ℕ

-- strings.Join(values, ",")
abbrev pub join_commas : List Text → Text
join_commas [] = []
join_commas (s ∷ []) = s
join_commas (s ∷ t ∷ ts) = s ++ (b',' ∷ join_commas (t ∷ ts))

abbrev pub cons_first : ℕ → List Text → List Text
cons_first c [] = (c ∷ []) ∷ []
cons_first c (s ∷ ss) = (c ∷ s) ∷ ss

-- strings.Split(s, ",")
abbrev pub split_commas : Text → List Text
split_commas [] = [] ∷ []
split_commas (c ∷ s) =
    let rest = split_commas s in if c == b',' then [] ∷ rest else cons_first c rest

pub data Key : Type 0 where
  user : ℕ → Key
  anonymous : Subject → Key

module _ (net : Net) (trusted : List IpNet) where
  unfoldable pub trusted_ip : Ip → Bool
  unfolding net_contains
  trusted_ip ip = any (λ n. net_contains n ip) trusted

  unfoldable pub is_trusted_proxy : Text → Bool
  unfolding trusted_ip
  is_trusted_proxy host = elim (net.parse_ip host) [ none ↦ false | some ip ↦ trusted_ip ip ]

  -- The loop over the entries from the right. `none`: it ended with no address.
  unfoldable pub walk_back : List Text → Option Subject
  unfolding is_trusted_proxy rate_limit_subject
  walk_back [] = none
  walk_back (e ∷ es) =
      let entry = trim_space e in
      elim (net.parse_ip entry) [
        | none ↦ none
        | some ip ↦ if is_trusted_proxy entry then walk_back es else some (rate_limit_subject ip)
      ]

  -- X-Real-IP, where it names an address that is no proxy's.
  unfoldable pub from_real_ip : Text → Option Subject
  unfolding trusted_ip rate_limit_subject
  from_real_ip header = elim (net.parse_ip (trim_space header)) [
    | none ↦ none
    | some ip ↦ if trusted_ip ip then none else some (rate_limit_subject ip)
  ]

  abbrev pub peer_host : Request → Text
  peer_host r = elim (net.split_host_port r.remote_addr) [ none ↦ r.remote_addr | some h ↦ h ]

  unfoldable pub from_peer : Text → Subject
  unfolding rate_limit_subject
  from_peer host = elim (net.parse_ip host) [ none ↦ peer host | some ip ↦ rate_limit_subject ip ]

  abbrev pub or_else : Option Subject → Option Subject → Subject → Subject
  or_else (some s) b c = s
  or_else none (some s) c = s
  or_else none none c = c

  unfoldable pub client_identifier : Request → Subject
  unfolding is_trusted_proxy walk_back from_real_ip from_peer
  client_identifier r =
      let host = peer_host r in
      if is_trusted_proxy host
      then or_else (walk_back (reverse (split_commas (join_commas r.forwarded_for))))
          (from_real_ip r.real_ip) (from_peer host)
      else from_peer host

  unfoldable pub client_key : Request → Key
  unfolding client_identifier
  client_key r = if ltb 0 r.user_id then user r.user_id else anonymous (client_identifier r)
