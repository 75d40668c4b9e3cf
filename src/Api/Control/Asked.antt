-- ===== src/Api/Control/Asked.antt =====
-- internal/api/control/router.go, sandboxes.go: which call on the manager a request asks for, as a table
-- of its own that the router's choice of a handler agrees with.
use edvabe.Prelude.{
  String, ◌≡◌, refl, sym, subst, Bool, true, false, inl, inr, Option, none, some, ◌==◌, ◌||◌,
  eq_iff, Bool-cases, if◌then◌else◌, arith,
}
use edvabe.Prelude.Int.{ℤ, pos, leb_ℤ, ltb_ℤ}
use edvabe.Sandbox.Manager.History.{Call, creates, destroys, sets_timeout, connects, pauses}
use edvabe.Text.{has_prefix, trim_prefix}
use edvabe.Text.Split.{contains, has_suffix, trim_suffix}
use edvabe.Api.{Request, first_value}
use edvabe.Api.Control.Sandboxes.{NewSandboxRequest, Json, seconds, resolve_on_timeout}
use edvabe.Api.Control.Routes.{
  endpoint, Endpoint, post_sandboxes, delete_one, post_timeout, post_connect, post_pause,
  post_resume, post_refreshes,
}

-- A call on a sandbox that is named by an identifier, which is not empty and has no slash.
abbrev pub on_sandbox : String → (String → Option Call) → Option Call
on_sandbox id call = if id == "" || contains "/" id then none else call id

-- The identifier in /sandboxes/{id}{suffix}.
abbrev pub segment : String → String → String
segment suffix path = trim_suffix (trim_prefix path "/sandboxes/") suffix

abbrev pub creation : Option NewSandboxRequest → Option Call
creation none = none
creation (some req) = some (
    creates (record {
      template_id = req.template_id;
      alias = req.alias;
      metadata = req.metadata;
      env_vars = req.env_vars;
      timeout = seconds req.timeout;
      on_timeout = resolve_on_timeout req;
      cpu_count = req.cpu_count;
      memory_mb = req.memory_mb;
    }))

-- A duration that must be there, and one that stands for five minutes when it is not positive.
abbrev pub for_seconds : (String → ℤ → Call) → Option ℤ → String → Option Call
for_seconds call none id = none
for_seconds call (some t) id = some (call id (seconds t))

abbrev pub or_five_minutes : (String → ℤ → Call) → Option ℤ → String → Option Call
or_five_minutes call none id = none
or_five_minutes call (some t) id =
    some (call id (if leb_ℤ (seconds t) (pos 0) then pos 300_000_000_000 else seconds t))

-- An extension by a positive number of seconds.
abbrev pub if_positive : (String → ℤ → Call) → Option ℤ → String → Option Call
if_positive call none id = none
if_positive call (some t) id = if ltb_ℤ (pos 0) t then some (call id (seconds t)) else none

-- A body of a positive length, or what stands for one.
abbrev pub body_or : {A : Type 0} → A → (String → Option A) → Request → Option A
body_or default' decode r = if ltb_ℤ (pos 0) r.content_length then decode r.body else some default'

abbrev pub asked_by_post : Json → Request → Option Call
asked_by_post json r =
    if r.path == "/sandboxes"
    then creation (json.decode_new_sandbox r.body)
    else if has_suffix r.path "/timeout"
    then on_sandbox (segment "/timeout" r.path)
        (for_seconds sets_timeout (json.decode_timeout r.body))
    else if has_suffix r.path "/connect"
    then on_sandbox (segment "/connect" r.path) (for_seconds connects (json.decode_timeout r.body))
    else if has_suffix r.path "/pause"
    then on_sandbox (segment "/pause" r.path) (λ id. some (pauses id))
    else if has_suffix r.path "/resume"
    then on_sandbox (segment "/resume" r.path)
        (or_five_minutes connects (body_or (pos 0) json.decode_timeout r))
    else if has_suffix r.path "/snapshots"
    then none
    else if has_suffix r.path "/refreshes"
    then on_sandbox (segment "/refreshes" r.path)
        (if_positive sets_timeout (body_or (pos 0) json.decode_duration r))
    else none

-- The call that a request asks for: none without a key, none of a method but POST and DELETE.
abbrev pub asked : Json → Request → Option Call
asked json r =
    if first_value "X-Api-Key" r.headers == ""
    then none
    else if r.method == "DELETE"
    then (if has_prefix r.path "/sandboxes/"
        then on_sandbox (trim_prefix r.path "/sandboxes/") (λ id. some (destroys id))
        else none)
    else if r.method == "POST"
    then asked_by_post json r
    else none

-- What the router's choice of a handler asks for.
abbrev pub asked_at : Endpoint → Json → Request → Option Call
asked_at post_sandboxes json r = creation (json.decode_new_sandbox r.body)
asked_at delete_one json r =
    on_sandbox (trim_prefix r.path "/sandboxes/") (λ id. some (destroys id))
asked_at post_timeout json r =
    on_sandbox (segment "/timeout" r.path) (for_seconds sets_timeout (json.decode_timeout r.body))
asked_at post_connect json r =
    on_sandbox (segment "/connect" r.path) (for_seconds connects (json.decode_timeout r.body))
asked_at post_pause json r = on_sandbox (segment "/pause" r.path) (λ id. some (pauses id))
asked_at post_resume json r =
    on_sandbox (segment "/resume" r.path)
      (or_five_minutes connects (body_or (pos 0) json.decode_timeout r))
asked_at post_refreshes json r =
    on_sandbox (segment "/refreshes" r.path)
      (if_positive sets_timeout (body_or (pos 0) json.decode_duration r))
asked_at _ json r = none

-- A method is at most one of the four.
other_method :
    (method name other : String)
    → (method == name) ≡ true
    → (name == other) ≡ false
    → (method == other) ≡ false
other_method method name other e apart =
    subst (λ x. (x == other) ≡ false) (sym ((eq_iff method name).0 e)) apart

if-asked_at :
    (b : Bool) (e f : Endpoint) (json : Json) (r : Request)
    → asked_at (if b then e else f) json r ≡ (if b then asked_at e json r else asked_at f json r)
if-asked_at true e f json r = refl
if-asked_at false e f json r = refl

pub asked-endpoint :
    (json : Json) (r : Request)
    → asked json r
      ≡ (if first_value "X-Api-Key" r.headers == "" then none else asked_at (endpoint r) json r)
unfolding endpoint
asked-endpoint json r = elim (Bool-cases (r.method == "POST")) [
  | inl post ↦ ground (
    arith,
    post,
    other_method r.method "POST" "GET" post refl,
    other_method r.method "POST" "DELETE" post refl,
  )
  | inr no_post ↦ elim (Bool-cases (r.method == "DELETE")) [
    | inl delete ↦ ground (
      arith,
      no_post,
      delete,
      other_method r.method "DELETE" "GET" delete refl,
      other_method r.method "DELETE" "PUT" delete refl,
    )
    | inr no_delete ↦ ground (arith, no_post, no_delete)
  ]
]
