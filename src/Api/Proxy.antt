-- ===== src/Api/Proxy.antt =====
-- internal/api/proxy.go: where the reverse proxy sends a request. What `httputil.ReverseProxy` does
-- from there on is not modelled; `is_url` is whether `url.Parse` takes the address of a host.
use Prim.Native.String.{String}
use edvabe.Prelude.{
  ℕ, ◌≤◌, ◌<◌, ◌≡◌, ◌≢◌, refl, ap₂, subst, ◌∙◌, ap, ◌⊎◌, inl, inr, Bool, true, false, none, some,
  ◌==◌, eq_iff, ◌&&◌, if◌then◌else◌, arith, Option-cases,
}
use edvabe.Prelude.Int.{ℤ, pos, leb_ℤ, ltb_ℤ, ◌≤ℤ◌}
use edvabe.Prelude.Result.{ok, err, Result-cases}
use edvabe.Sandbox.{Sandbox, Error, not_found}
use edvabe.Sandbox.Host.{Host}
use edvabe.Sandbox.Manager.{Manager, get}
use edvabe.Text.Split.{contains, to_lower}
use edvabe.Text.Decimal.{atoi, itoa, atoi-itoa}
use edvabe.Text.{has_prefix}
use edvabe.Api.{Request, Reply, replied, write_error, first_value}
use edvabe.Api.Dispatch.{
  itoa-ne_empty, dispatch-addressed, addressed-id, addressed-port, Handler, dispatch, host_of,
  addressed, header_sandbox_id, header_sandbox_port,
}

-- The port that the header asks for, if it is one.
unfoldable pub port_of_header : String → ℤ → ℤ
port_of_header header port = if header == "" then port else elim (atoi header) [
  | none ↦ port
  | some p ↦ if ltb_ℤ (pos 0) p && leb_ℤ p (pos 65535) then p else port
]

port_of_header-range :
    (header : String) (port : ℤ)
    → (port_of_header header port ≡ port)
      ⊎ ((pos 1 ≤ℤ port_of_header header port) × (port_of_header header port ≤ℤ pos 65535))
unfolding port_of_header
port_of_header-range header port = elim (Option-cases (atoi header)) [
  | inl bad ↦ ground (arith, bad)
  | inr (p, good) ↦ ground (arith, good)
]

port_of_header-itoa : (p : ℕ) (port : ℤ) → 0 < p → p ≤ 65535 → port_of_header (itoa p) port ≡ pos p
unfolding port_of_header
port_of_header-itoa p port low high =
    ground (arith, atoi-itoa p (omega arith), itoa-ne_empty p, eq_iff (itoa p) "")

abbrev pub status_of_lookup : Error → ℕ
status_of_lookup not_found = 404
status_of_lookup _ = 500

module _ {W : Type 0} (h : Host W) (is_url : String → ℤ → Bool) where
  -- The host and the port that a request goes to, by its two headers.
  unfoldable pub forward : Manager → String → String → W → Reply (String × ℤ) × W
  forward m id port_header w =
      let (endpoint, w') = h.rt.agent_endpoint id w in
      if id == "" then (write_error 400, w) else elim (get m id) [
        | err e ↦ (write_error (status_of_lookup e), w)
        | ok _ ↦ elim endpoint [
          | err e ↦ (write_error 500, w')
          | ok (host, agent_port) ↦
              let port = port_of_header port_header agent_port in
              (if is_url host port then replied 200 (host, port) else write_error 500, w')
        ]
      ]

  unfoldable pub proxy : Manager → Request → W → Reply (String × ℤ) × W
  proxy m r w =
      forward m (first_value header_sandbox_id r.headers)
        (first_value header_sandbox_port r.headers) w

  -- The port that a request is sent to is the agent's own, or lies between 1 and 65535, whatever the
  -- headers hold, and no request is sent for a sandbox that is not registered.
  pub proxy-port :
      (m : Manager) (r : Request) (w : W) (status : ℕ) (host : String) (port : ℤ)
      → (proxy m r w).0 ≡ replied status (host, port)
      → (s : Sandbox) × (agent_port : ℤ) × (get m (first_value header_sandbox_id r.headers) ≡ ok s)
        × ((h.rt.agent_endpoint (first_value header_sandbox_id r.headers) w).0
            ≡ ok (host, agent_port))
        × ((port ≡ agent_port) ⊎ ((pos 1 ≤ℤ port) × (port ≤ℤ pos 65535)))
  unfolding proxy forward
  proxy-port m r w status host port sent =
      elim (Result-cases (get m (first_value header_sandbox_id r.headers))) [
        | inr (e, unknown) ↦ absurd (ground (arith, sent, unknown))
        | inl (s, known) ↦
            elim (Result-cases
              ((h.rt.agent_endpoint (first_value header_sandbox_id r.headers) w).0)) [
                | inr (e, gone) ↦ absurd (ground (arith, sent, known, gone))
                | inl ((host', agent_port), at) ↦
                    let header = first_value header_sandbox_port r.headers in
                    let to : host' ≡ host = ground (arith, sent, known, at) in
                    let on : port_of_header header agent_port ≡ port =
                      ground (arith, sent, known, at) in
                    (
                      s,
                      agent_port,
                      known,
                      at ∙ ap (λ x. ok (x, agent_port)) to,
                      subst (λ q. (q ≡ agent_port) ⊎ ((pos 1 ≤ℤ q) × (q ≤ℤ pos 65535))) on
                          (port_of_header-range header agent_port),
                    )
              ]
      ]

  proxy-addressed :
      (m : Manager) (r : Request) (w : W)
      → (port : ℕ) (id : String) (s : Sandbox) (host : String) (agent_port : ℤ) → 0 < port
      → port ≤ 65535
      → id ≢ ""
      → get m id ≡ ok s
      → (h.rt.agent_endpoint id w).0 ≡ ok (host, agent_port)
      → is_url host (pos port) ≡ true
      → (proxy m (addressed (itoa port) id r) w).0 ≡ replied 200 (host, pos port)
  unfolding proxy forward
  proxy-addressed m r w port id s host agent_port low high named known at well_formed =
      ap₂ (λ i p. (forward m i p w).0) (addressed-id (itoa port) id r)
        (addressed-port (itoa port) id r)
      ∙ ground (
        arith,
        named,
        eq_iff id "",
        known,
        at,
        well_formed,
        port_of_header-itoa port agent_port low high,
      )

  -- A request without an identifier in its headers whose host is made of a port between 1 and 65535
  -- and the identifier of a sandbox, in lower case and without a dot, goes to the proxy. When the
  -- sandbox is registered and its agent's address is known and well formed, the proxy sends the
  -- request to the agent's host, on that port.
  pub dispatch-proxy :
      (with_dashboard : Bool) (m : Manager) (r : Request) (w : W)
      → (port : ℕ) (id domain : String) (s : Sandbox) (host : String) (agent_port : ℤ) → 0 < port
      → port ≤ 65535
      → id ≢ ""
      → contains "." id ≡ false
      → to_lower id ≡ id
      → has_prefix r.path "/dashboard" ≡ false
      → first_value header_sandbox_id r.headers ≡ ""
      → r.host ≡ host_of port id domain
      → get m id ≡ ok s
      → (h.rt.agent_endpoint id w).0 ≡ ok (host, agent_port)
      → is_url host (pos port) ≡ true
      → ((dispatch with_dashboard r).0 ≡ Handler.proxy)
        × ((proxy m (dispatch with_dashboard r).1 w).0 ≡ replied 200 (host, pos port))
  dispatch-proxy with_dashboard m r w port id domain s host agent_port low high named plain lower
        elsewhere anonymous from known at well_formed =
      rw
        (dispatch-addressed with_dashboard r port id domain (omega arith) named plain lower
          elsewhere anonymous from)
        (refl, proxy-addressed m r w port id s host agent_port low high named known at well_formed)
