-- ===== src/Examples/Middleware.antt =====
-- Runs of the rate limiter's parts: a caller behind one proxy, and a window of two requests.
use skill_issues.Prelude.{
  List, ◌+◌, ◌≡◌, refl, none, some, [], ◌∷◌, ◌++◌, ◌<◌, true, false, ltb, if◌then◌else◌, arith,
}
use skill_issues.Prelude.Text.{Text, ascii, text_eq}
use skill_issues.Middleware.ClientIp.{
  v4, IpNet, Net, Request, client_identifier, address, is_trusted_proxy,
}
use skill_issues.Middleware.ClientIp.Spoofing.{client_identifier-forged}
use skill_issues.Middleware.RateLimit.Window.{admitted, admitted_in_window}

-- 10.0.0.1 is the proxy, 1.2.3.4 a caller, and a peer's port is left out already.
abbrev net : Net
net = record {
  parse_ip = λ t.
      if text_eq t (ascii "10.0.0.1")
      then some (v4 167772161)
      else if text_eq t (ascii "1.2.3.4")
      then some (v4 16909060)
      else none;
  split_host_port = λ t. some t;
}

abbrev trusted : List IpNet
trusted = record { ip = v4 167772160; ones = 8 } ∷ []

abbrev proxied : Request
proxied = record { remote_addr = ascii "10.0.0.1"; forwarded_for = []; real_ip = []; user_id = 0 }

abbrev direct : Request
direct = record { remote_addr = ascii "1.2.3.4"; forwarded_for = []; real_ip = []; user_id = 0 }

abbrev own : Text
own = ascii "1.2.3.4, 10.0.0.1"

named_caller :
    client_identifier net trusted (record proxied { forwarded_for = own ∷ [] }) ≡ address 16909060
unfolding client_identifier skill_issues.Prelude.Text.trim_space
named_caller = refl

client_identifier-forged_example :
    client_identifier net trusted
      (record proxied { forwarded_for = (ascii "10.0.0.1" ++ (b',' ∷ own)) ∷ [] })
    ≡ client_identifier net trusted (record proxied { forwarded_for = own ∷ [] })
unfolding is_trusted_proxy skill_issues.Prelude.Text.trim_space
client_identifier-forged_example =
    client_identifier-forged net trusted proxied (ascii "10.0.0.1") own refl

admitted_in_window_example :
    admitted 2 60 (100 ∷ 110 ∷ 120 ∷ 159 ∷ []) (some (record { value = 9; expires = some 90 })) ≡ 2
admitted_in_window_example =
    admitted_in_window 2 60 100 (110 ∷ 120 ∷ 159 ∷ [])
      (some (record { value = 9; expires = some 90 })) refl
      (omega arith, (omega arith, (omega arith, tt)))

next_window : admitted 2 60 (100 ∷ 110 ∷ 120 ∷ 160 ∷ []) none ≡ 3
unfolding admitted
next_window = refl
