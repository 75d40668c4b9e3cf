-- ===== src/Api/Dispatch.antt =====
-- internal/api/parsehost.go, dispatch.go: which handler a request goes to.
use Prim.Native.String.{String, ◌++◌ as ◌+++◌}
use text.Mathlib.TextLemmas.{nil≢cons}
use edvabe.Prelude.{
  ℕ, ◌<◌, ◌≡◌, ◌≢◌, refl, sym, ◌∙◌, Bool, false, Option, none, some, ◌==◌, eq_iff, ◌&&◌, ◌||◌,
  if◌then◌else◌, arith,
}
use edvabe.Prelude.Dict.{insert, lookup-insert, lookup-insert_self}
use edvabe.Text.{has_prefix}
use edvabe.Text.Split.{cut, contains, to_lower, cut-append, contains-append}
use edvabe.Text.Decimal.{atoi, itoa, int_limit, atoi-itoa, itoa-cons, contains-itoa}
use edvabe.Api.{Request, first_value}

-- The port and the identifier.
unfoldable pub parse_host : String → Option (String × String)
parse_host host = elim (cut "." host) [
  | none ↦ none
  | some (subdomain, _) ↦ elim (cut "-" subdomain) [
    | none ↦ none
    | some (port, id) ↦
        if port == "" || id == ""
        then none
        else elim (atoi port) [ none ↦ none | some _ ↦ some (port, to_lower id) ]
  ]
]

pub data Handler : Type 0 where
  control proxy dashboard : Handler

abbrev pub header_sandbox_id : String
header_sandbox_id = "E2b-Sandbox-Id"

abbrev pub header_sandbox_port : String
header_sandbox_port = "E2b-Sandbox-Port"

-- The request with the headers that stand for its host.
abbrev pub addressed : String → String → Request → Request
addressed port id r = record r {
  headers = insert header_sandbox_port port (insert header_sandbox_id id r.headers);
}

-- `with_dashboard` is whether there is a handler for it.
unfoldable pub dispatch : Bool → Request → Handler × Request
dispatch with_dashboard r =
    if with_dashboard && has_prefix r.path "/dashboard"
    then (dashboard, r)
    else if first_value header_sandbox_id r.headers == ""
    then elim (parse_host r.host) [
      | none ↦ (control, r)
      | some (port, id) ↦ (if id == "" then control else proxy, addressed port id r)
    ]
    else (proxy, r)

-- The host name of a port of a sandbox.
abbrev pub host_of : ℕ → String → String → String
host_of port id domain = (itoa port +++ String.◌∷◌ "-" id) +++ String.◌∷◌ "." domain

pub itoa-ne_empty : (n : ℕ) → itoa n ≢ ""
itoa-ne_empty n e = let (c, s, starts, _) = itoa-cons n in nil≢cons (sym e ∙ starts)

-- A host name that is made of a port below 2^63, the identifier of a sandbox, in lower case and
-- without a dot, and a domain, is taken apart into that port and that identifier.
pub parse_host-host_of :
    (port : ℕ) (id domain : String)
    → port < int_limit
    → id ≢ ""
    → contains "." id ≡ false
    → to_lower id ≡ id
    → parse_host (host_of port id domain) ≡ some (itoa port, id)
unfolding parse_host contains
parse_host-host_of port id domain small named plain low = ground (
  arith,
  cut-append "." (itoa port +++ String.◌∷◌ "-" id) domain (
      contains-append "." (itoa port) (String.◌∷◌ "-" id)
      ∙ ground (arith, contains-itoa "." port refl, plain)),
  cut-append "-" (itoa port) id (contains-itoa "-" port refl),
  atoi-itoa port small,
  named,
  eq_iff id "",
  eq_iff (itoa port) "",
  itoa-ne_empty port,
  low,
)

pub addressed-id :
    (port id : String) (r : Request)
    → first_value header_sandbox_id (addressed port id r).headers ≡ id
unfolding first_value
addressed-id port id r = ground (
  arith,
  lookup-insert header_sandbox_port header_sandbox_id port (insert header_sandbox_id id r.headers),
  lookup-insert_self header_sandbox_id id r.headers,
)

pub addressed-port :
    (port id : String) (r : Request)
    → first_value header_sandbox_port (addressed port id r).headers ≡ port
unfolding first_value
addressed-port port id r =
    ground
      (arith, lookup-insert_self header_sandbox_port port (insert header_sandbox_id id r.headers))

pub dispatch-addressed :
    (with_dashboard : Bool) (r : Request) (port : ℕ) (id domain : String)
    → port < int_limit
    → id ≢ ""
    → contains "." id ≡ false
    → to_lower id ≡ id
    → has_prefix r.path "/dashboard" ≡ false
    → first_value header_sandbox_id r.headers ≡ ""
    → r.host ≡ host_of port id domain
    → dispatch with_dashboard r ≡ (proxy, addressed (itoa port) id r)
unfolding dispatch
dispatch-addressed with_dashboard r port id domain small named plain low elsewhere anonymous from =
    rw (from, anonymous, parse_host-host_of port id domain small named plain low)
      (ground (arith, elsewhere, named, eq_iff id ""))
