-- ===== src/Tests/Access.antt =====
-- The guards and the token of index.js at concrete requests.
use debrid_nest.Prelude.{◌≡◌, refl, true, false, nat_eq, text_eq, is_empty}
use debrid_nest.Text.{Text, text, starts_with}
use debrid_nest.Text.Number.{show_nat}
use debrid_nest.Server.{
  Request, is_local_request, presents_token, is_docker_bridge_ip, normalize_remote_ip,
  require_diagnostics_access,
}
use debrid_nest.Server.Bridge.{
  dotted, is_bridge_range, is_docker_bridge_ip-dotted, require_diagnostics_access-token,
}

is_docker_bridge_ip-dotted_example :
    is_docker_bridge_ip (dotted 172 18 0 5) ≡ is_bridge_range 172 18 0
is_docker_bridge_ip-dotted_example = is_docker_bridge_ip-dotted 172 18 0 5

abbrev outside_request : Request
outside_request = record {
  ip = dotted 8 8 4 4;
  admin_header = text "secret";
  host = text "localhost:7000";
}

outside_request-far : is_local_request outside_request ≡ false
unfolding is_local_request normalize_remote_ip dotted show_nat starts_with
outside_request-far = refl

outside_request-admitted : require_diagnostics_access (text "secret") outside_request ≡ true
unfolding require_diagnostics_access presents_token is_local_request normalize_remote_ip dotted
    show_nat starts_with
outside_request-admitted = refl

require_diagnostics_access-token_example :
    (is_empty (text "secret") ≡ false) × (text "secret" ≡ text "secret")
unfolding is_bridge_range
require_diagnostics_access-token_example =
    require_diagnostics_access-token (text "secret") (text "secret") (text "localhost:7000") 8 8 4 4
      refl outside_request-far outside_request-admitted

abbrev hex_token : Text
hex_token = text "0123456789abcdef0123456789ABCDEF"
