-- ===== src/Tests/Requests.antt =====
-- Requests over HTTP: host names, upload tokens, listings, timeouts and builds.
use edvabe.Prelude.{
  ℕ, ◌≤◌, ◌<◌, ◌≡◌, ◌↔◌, ◌⊎◌, refl, ◌+◌, String, Bool, true, false, none, some, [], ◌∷◌,
  if◌then◌else◌, arith,
}
use edvabe.Prelude.Int.{ℤ, pos, ltb_ℤ, ◌+ℤ◌, ◌≤ℤ◌, ◌<ℤ◌}
use edvabe.Prelude.Dict.{lookup, insert}
use edvabe.Prelude.Result.{Result, ok, err}
use edvabe.Runtime.{Fault}
use edvabe.Runtime.Noop.{noop_runtime, agent_endpoint}
use edvabe.Sandbox.{Sandbox}
use edvabe.Sandbox.Manager.{new_manager, get, put, has_lapsed}
use edvabe.Sandbox.Manager.History.{Call}
use edvabe.Text.{strip_prefix, has_prefix, trim_prefix}
use edvabe.Text.Split.{contains, to_lower, has_suffix, strip_suffix, trim_suffix, reverse_onto}
use edvabe.Text.Decimal.{atoi, itoa, unsigned, read_digits, int_limit}
use edvabe.FileCache.{
  Signer, invalid_token, unix, sign_with_expiry, sign, verify, verify_iff, verify-sign,
}
use edvabe.Template.{Template}
use edvabe.Builder.Manager.History.{started}
use edvabe.Api.{Request, replied, no_body, write_error, first_value}
use edvabe.Api.Dispatch.{Handler, dispatch, host_of, header_sandbox_id}
use edvabe.Api.Proxy.{forward, proxy, port_of_header, proxy-port, dispatch-proxy}
use edvabe.Api.Control.Listing.{follow, follow-all}
use edvabe.Api.Control.Sandboxes.{Json, Stats, seconds, wrap64}
use edvabe.Api.Control.Routes.{set_sandbox_timeout, serve}
use edvabe.Api.Control.Asked.{asked}
use edvabe.Api.Control.Acting.{Does, serve-asked}
use edvabe.Api.Control.Timeouts.{set_sandbox_timeout-replies}
use edvabe.Api.Control.Builds.{Server}
use edvabe.Tests.Fixtures.{host, World, world, running_manager, running_sandbox}
use edvabe.Tests.Templates.{stored}
use edvabe.Tests.Running.{persisting}

abbrev to_sandbox : Request
to_sandbox = record {
  method = "GET";
  path = "/health";
  host = host_of 8080 "isb_a" "localhost:3000";
  headers = [];
  query = [];
  body = "";
  content_length = pos 0;
}

abbrev any_url : String → ℤ → Bool
any_url at port = true

sandbox_known : get running_manager "isb_a" ≡ ok running_sandbox
unfolding get lookup insert new_manager
sandbox_known = refl

at_home : (host.rt.agent_endpoint "isb_a" (world false)).0 ≡ ok ("127.0.0.1", pos 49983)
unfolding noop_runtime agent_endpoint lookup
at_home = refl

dispatch-proxy_example :
    ((dispatch true to_sandbox).0 ≡ Handler.proxy)
    × ((proxy host any_url running_manager (dispatch true to_sandbox).1 (world false)).0
        ≡ replied 200 ("127.0.0.1", pos 8080))
dispatch-proxy_example =
    dispatch-proxy host any_url true running_manager to_sandbox (world false) 8080 "isb_a"
      "localhost:3000" running_sandbox "127.0.0.1" (pos 49983) (omega arith) (omega arith) (λ e. cc)
      (unfold contains in refl) (unfold to_lower in refl)
      (unfold has_prefix in unfold strip_prefix in refl)
      (unfold first_value in unfold lookup in refl) refl sandbox_known at_home refl

abbrev with_headers : Request
with_headers = record to_sandbox {
  headers = ("E2b-Sandbox-Id", "isb_a") ∷ ("E2b-Sandbox-Port", "70000") ∷ [];
}

sent_on :
    (proxy host any_url running_manager with_headers (world false)).0
    ≡ replied 200 ("127.0.0.1", pos 49983)
unfolding proxy forward first_value lookup get insert new_manager noop_runtime agent_endpoint
    port_of_header atoi unsigned read_digits
sent_on = refl

proxy-port_example :
    (s : Sandbox) × (agent_port : ℤ) × (get running_manager
        (first_value header_sandbox_id with_headers.headers)
      ≡ ok s)
    × ((host.rt.agent_endpoint (first_value header_sandbox_id with_headers.headers) (world false)).0
        ≡ ok ("127.0.0.1", agent_port))
    × ((pos 49983 ≡ agent_port) ⊎ ((pos 1 ≤ℤ pos 49983) × (pos 49983 ≤ℤ pos 65535)))
proxy-port_example =
    proxy-port host any_url running_manager with_headers (world false) 200 "127.0.0.1" (pos 49983)
      sent_on

abbrev pub signer : Signer
signer = record { mac = λ payload. "c2ln"; ttl = 600_000_000_000 }

pub no_dot : (payload : String) → contains "." (signer.mac payload) ≡ false
unfolding contains
no_dot payload = refl

verify_iff_example : (verify signer 5_000_000_000 "abc" "c2ln.605" ≡ ok tt) ↔ (
    (exp : ℕ) × (exp < int_limit)
    × (unix 5_000_000_000 ≤ exp)
    × ("c2ln.605" ≡ sign_with_expiry signer "abc" (pos exp)))
verify_iff_example = verify_iff signer 5_000_000_000 "abc" "c2ln.605" no_dot

verify-sign_example : verify signer 604_000_000_000 "abc" (sign signer 5_000_000_000 "abc") ≡ (
    if ltb_ℤ (pos (unix (5_000_000_000 + signer.ttl))) (pos (unix 604_000_000_000))
    then err invalid_token
    else ok tt)
verify-sign_example = verify-sign signer 5_000_000_000 604_000_000_000 "abc" no_dot (omega arith)

follow-all_example :
    follow 4 "" (itoa 2) (running_sandbox ∷ running_sandbox ∷ running_sandbox ∷ [])
    ≡ some (running_sandbox ∷ running_sandbox ∷ running_sandbox ∷ [])
follow-all_example =
    follow-all 1 (running_sandbox ∷ running_sandbox ∷ running_sandbox ∷ []) (omega arith)
      (omega arith)

abbrev json : Json
json = record {
  decode_new_sandbox = λ body. none;
  decode_timeout = λ body. some (pos 60);
  decode_name = λ body. some body;
  decode_duration = λ body. some (pos 30);
}

abbrev no_stats : String → World → Result Fault Stats × World
no_stats id w = (err "no stats", w)

abbrev stamp_of : ℤ → String
stamp_of now = "20260101-000000"

abbrev for_timeout : Request
for_timeout = record {
  method = "POST";
  path = "/sandboxes/isb_a/timeout";
  host = "localhost:3000";
  headers = ("X-Api-Key", "e2b") ∷ [];
  query = [];
  body = "{\"timeout\":60}";
  content_length = pos 14;
}

serve-asked_example :
    Does host
      (asked json for_timeout)
      running_manager
      (world false)
      (serve host "0.5.7" json no_stats stamp_of for_timeout running_manager (world false))
serve-asked_example =
    serve-asked host "0.5.7" json no_stats stamp_of for_timeout running_manager (world false)

it_asks : asked json for_timeout ≡ some (Call.sets_timeout "isb_a" (pos 60_000_000_000))
unfolding first_value lookup has_suffix strip_suffix strip_prefix reverse_onto trim_suffix
    trim_prefix contains seconds wrap64
it_asks = refl

-- One second more than the bound of the exact range runs out at once.
seconds_overflow : seconds (pos 9_223_372_037) <ℤ pos 0
unfolding seconds wrap64
seconds_overflow = ground arith

set_sandbox_timeout-replies_example :
    set_sandbox_timeout host "0.5.7" json no_stats stamp_of "/sandboxes/isb_a/timeout" "{}"
      running_manager
      (world false)
    ≡ elim (lookup "isb_a" running_manager.sandboxes) [
      | none ↦ (write_error 404, running_manager, world false)
      | some s ↦
          let (now, w') = host.now (world false) in
          if has_lapsed now s then (write_error 410, running_manager, w') else (
            no_body 204,
            put "isb_a" (record s { expires_at = now +ℤ pos 60_000_000_000 }) running_manager,
            w',
          )
    ]
set_sandbox_timeout-replies_example =
    set_sandbox_timeout-replies host "0.5.7" json no_stats stamp_of "isb_a" "{}" 60 running_manager
      (world false) (λ e. cc) (unfold contains in refl) refl (omega arith)

abbrev server : Server ℕ
server = started persisting (stored, 0)

abbrev build_path : String
build_path = "/v2/templates/tpl_1/builds/b9"
