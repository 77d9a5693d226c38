-- ===== src/Server/Bridge.antt =====
-- Whom the diagnostics guard of index.js admits from outside.
use debrid_nest.Prelude.{
  ℕ, ◌≡◌, refl, ap, ◌∙◌, Bool, true, false, ◌&&◌, ◌||◌, [], ◌∷◌, ◌++◌, arith, leb, eqb,
  list_beq_iff, nat_eq, text_eq, is_empty,
}
use debrid_nest.Text.{Text, starts_with, split}
use debrid_nest.Text.Number.{show_nat}
use debrid_nest.Text.Digits.{
  IsDigits, show_nat-IsDigits, to_number-show_nat, split-digits, split-digits_end,
}
use debrid_nest.Text.Laws.{show_nat-nonempty}
use debrid_nest.Server.{
  Request, mapped_prefix, normalize_remote_ip, is_local_request, presents_token, bridge_numbers,
  is_docker_bridge_ip, require_diagnostics_access,
}

-- The text of an IPv4 address.
unfoldable pub dotted : ℕ → ℕ → ℕ → ℕ → Text
dotted a b c d = show_nat a ++ b'.' ∷ (show_nat b ++ b'.' ∷ (show_nat c ++ b'.' ∷ show_nat d))

-- 172.16.0.0/12, 192.168.64.0/24 and 192.168.65.0/24.
unfoldable pub is_bridge_range : ℕ → ℕ → ℕ → Bool
is_bridge_range a b c =
    (eqb a 172 && (leb 16 b && leb b 31)) || (eqb a 192 && (eqb b 168 && (eqb c 64 || eqb c 65)))

split-dotted :
    (a b c d : ℕ)
    → split b'.' (dotted a b c d) ≡ show_nat a ∷ show_nat b ∷ show_nat c ∷ show_nat d ∷ []
unfolding dotted
split-dotted a b c d =
    rw
      (
        split-digits b'.' (show_nat a) (show_nat b ++ b'.' ∷ (show_nat c ++ b'.' ∷ show_nat d))
            (show_nat-IsDigits a) refl,
        split-digits b'.' (show_nat b) (show_nat c ++ b'.' ∷ show_nat d) (show_nat-IsDigits b) refl,
        split-digits b'.' (show_nat c) (show_nat d) (show_nat-IsDigits c) refl,
        split-digits_end b'.' (show_nat d) (show_nat-IsDigits d) refl,
      )
      refl

-- On the text of an address, the test of the Docker networks is the one on its numbers.
pub is_docker_bridge_ip-dotted :
    (a b c d : ℕ) → is_docker_bridge_ip (dotted a b c d) ≡ is_bridge_range a b c
unfolding is_docker_bridge_ip bridge_numbers is_bridge_range
is_docker_bridge_ip-dotted a b c d =
    rw
      (
        split-dotted a b c d,
        to_number-show_nat a,
        to_number-show_nat b,
        to_number-show_nat c,
        to_number-show_nat d,
      )
      (ground arith)

starts_with-digit :
    (s rest : Text)
    → IsDigits s
    → is_empty s ≡ false
    → starts_with (s ++ rest) mapped_prefix ≡ false
unfolding starts_with
starts_with-digit [] rest h e = ground arith
starts_with-digit (c ∷ s) rest (p, h) e =
    let differs : eqb c b':' ≡ false = ground arith in rw differs refl

normalize_remote_ip-dotted : (a b c d : ℕ) → normalize_remote_ip (dotted a b c d) ≡ dotted a b c d
unfolding normalize_remote_ip dotted
normalize_remote_ip-dotted a b c d =
    rw
      (starts_with-digit (show_nat a)
        (b'.' ∷ (show_nat b ++ b'.' ∷ (show_nat c ++ b'.' ∷ show_nat d))) (show_nat-IsDigits a)
        (show_nat-nonempty a))
      refl

token_needed :
    (admin_token : Text) (r : Request)
    → is_docker_bridge_ip (normalize_remote_ip r.ip) ≡ false
    → is_local_request r ≡ false
    → require_diagnostics_access admin_token r ≡ true
    → presents_token admin_token r ≡ true
unfolding require_diagnostics_access
token_needed admin_token r away far admitted = ground arith

token_given :
    (admin_token : Text) (r : Request)
    → presents_token admin_token r ≡ true
    → (is_empty admin_token ≡ false) × (r.admin_header ≡ admin_token)
unfolding presents_token
token_given admin_token r h = ground (arith, list_beq_iff r.admin_header admin_token)

-- From an IPv4 address outside the Docker networks (172.16.0.0/12, 192.168.64.0/24,
-- 192.168.65.0/24), a request that is not local passes the guard of the diagnostics, whatever its Host
-- header says, only where an admin token is configured and the request's header is that token.
pub require_diagnostics_access-token :
    (admin_token header host : Text) (a b c d : ℕ)
    → is_bridge_range a b c ≡ false
    → is_local_request (record { ip = dotted a b c d; admin_header = header; host = host }) ≡ false
    → require_diagnostics_access admin_token
        (record { ip = dotted a b c d; admin_header = header; host = host })
      ≡ true
    → (is_empty admin_token ≡ false) × (header ≡ admin_token)
require_diagnostics_access-token admin_token header host a b c d away far admitted =
    let r : Request = record { ip = dotted a b c d; admin_header = header; host = host } in
    token_given admin_token r (
      token_needed admin_token r
        (ap is_docker_bridge_ip (normalize_remote_ip-dotted a b c d)
          ∙ is_docker_bridge_ip-dotted a b c d
          ∙ away)
        far admitted)
