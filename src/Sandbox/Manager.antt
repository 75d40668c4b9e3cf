-- ===== src/Sandbox/Manager.antt =====
-- internal/sandbox/manager.go: the registry and the calls on one sandbox. Each method takes the
-- manager and the world and gives both back beside its result. Methods are modelled one at a time,
-- so the write through the sandbox's pointer after a runtime call is a write to the registry.
-- A `let` names the reply of a call and the world after it; the call has been made on those branches
-- only that go on from that world.
pub mod Create
pub mod Reaper
pub mod Rehydrate
pub mod Snapshot
pub mod Registry
pub mod Calls
pub mod History
pub mod Exact
pub mod Containers
use edvabe.Prelude.{
  String, Bool, true, false, Option, none, some, List, [], ◌∷◌, ◌&&◌, not, ◌==◌, if◌then◌else◌,
  ◌+++◌,
}
use edvabe.Prelude.Int.{ℤ, pos, ◌+ℤ◌, leb_ℤ, ltb_ℤ}
use edvabe.Prelude.Dict.{Dict, lookup, insert, delete}
use edvabe.Prelude.Result.{Result, ok, err}
use edvabe.Runtime.{Fault}
use edvabe.Agent.{InitConfig}
use edvabe.Sandbox.{
  Sandbox, State, PauseMode, unpaused, frozen, is_paused, zero_time, Error, not_found, expired,
  failed, default_image, default_domain, default_freeze_duration, default_max_frozen,
  default_stopped_gc_after, default_user, default_workdir,
}
use edvabe.Sandbox.Host.{Host}

pub record Manager : Type 0 where
  pub base_image : String
  pub domain : String
  pub freeze_duration : ℤ
  pub max_frozen : ℤ
  pub stopped_gc_after : ℤ
  pub sandboxes : Dict Sandbox

pub record Options : Type 0 where
  pub base_image : String
  pub domain : String
  pub freeze_duration : ℤ
  pub max_frozen : ℤ
  pub stopped_gc_after : ℤ

abbrev pub or_default : ℤ → ℤ → ℤ
or_default n d = if leb_ℤ n (pos 0) && leb_ℤ (pos 0) n then d else n

abbrev pub or_default_text : String → String → String
or_default_text s d = if s == "" then d else s

-- The runtime, the agent and the clock are those of the host, which always has them.
unfoldable pub new_manager : Options → Manager
new_manager opts = record {
  base_image = or_default_text opts.base_image default_image;
  domain = or_default_text opts.domain default_domain;
  freeze_duration = or_default opts.freeze_duration default_freeze_duration;
  max_frozen = or_default opts.max_frozen default_max_frozen;
  stopped_gc_after = or_default opts.stopped_gc_after default_stopped_gc_after;
  sandboxes = [];
}

unfoldable pub get : Manager → String → Result Error Sandbox
get m id = elim (lookup id m.sandboxes) [ none ↦ err not_found | some s ↦ ok s ]

abbrev pub values : Dict Sandbox → List Sandbox
values [] = []
values ((id, s) ∷ rest) = s ∷ values rest

unfoldable pub list : Manager → List Sandbox
list m = values m.sandboxes

abbrev pub put : String → Sandbox → Manager → Manager
put id s m = record m { sandboxes = insert id s m.sandboxes }

abbrev pub drop_sandbox : String → Manager → Manager
drop_sandbox id m = record m { sandboxes = delete id m.sandboxes }

-- A sandbox that runs and whose deadline has come. Paused ones are exempt.
abbrev pub has_lapsed : ℤ → Sandbox → Bool
has_lapsed now s = not (is_paused s.state) && not (ltb_ℤ now s.expires_at)

abbrev pub is_frozen : PauseMode → Bool
is_frozen frozen = true
is_frozen _ = false

abbrev pub is_stopped : PauseMode → Bool
is_stopped PauseMode.stopped = true
is_stopped _ = false

-- What waking a sandbox leaves of its pause.
abbrev pub awake : Sandbox → Sandbox
awake s = record s { state = State.running; pause_mode = unpaused; paused_at = zero_time }

-- The operation that an error of `wake` names, by the way in which the sandbox was parked.
abbrev pub wake_stage : String → String → PauseMode → String
wake_stage parked thawed PauseMode.stopped = parked
wake_stage parked thawed _ = thawed

unfoldable pub init_config : Sandbox → InitConfig
init_config s = record {
  access_token = s.envd_token;
  env_vars = s.env_vars;
  default_user = default_user;
  default_workdir = default_workdir;
}

abbrev pub Outcome : Type 0 → Type 0 → Type 0
Outcome W A = Result Error A × Manager × W

module _ {W : Type 0} (h : Host W) where
  unfoldable pub destroy : String → Manager → W → Outcome W Unit
  destroy id m w = elim (lookup id m.sandboxes) [
    | none ↦ (err not_found, m, w)
    | some s ↦
        let (r, w') = h.rt.destroy id w in
        elim r [
          | ok _ ↦ (ok tt, drop_sandbox id m, w')
          | err e ↦ (err (failed "destroy" id e), drop_sandbox id m, w')
        ]
  ]

  unfoldable pub set_timeout : String → ℤ → Manager → W → Outcome W Unit
  set_timeout id timeout m w = elim (lookup id m.sandboxes) [
    | none ↦ (err not_found, m, w)
    | some s ↦
        let (now, w') = h.now w in
        if has_lapsed now s
        then (err expired, m, w')
        else (ok tt, put id (record s { expires_at = now +ℤ timeout }) m, w')
  ]

  -- The sandbox with its fresh endpoint, or the fault with its stage before it.
  unfoldable pub resume_stopped : Sandbox → W → Result Fault Sandbox × W
  resume_stopped s w =
      let (started, w1) = h.rt.start s.id w in
      let (at, w2) = h.rt.agent_endpoint s.id w1 in
      elim started [
        | err e ↦ (err ("runtime start: " +++ e), w1)
        | ok _ ↦ elim at [
          | err e ↦ (err ("agent endpoint: " +++ e), w2)
          | ok endpoint ↦
              let (pinged, w3) = h.ap.ping endpoint w2 in
              let (ready, w4) = h.ap.init_agent endpoint (init_config s) w3 in
              elim pinged [
                | err e ↦ (err ("agent ping: " +++ e), w3)
                | ok _ ↦ elim ready [
                  | err e ↦ (err ("agent init: " +++ e), w4)
                  | ok _ ↦ (ok (record s { agent_host = endpoint.0; agent_port = endpoint.1 }), w4)
                ]
              ]
        ]
      ]

  unfoldable pub thaw : String → Sandbox → W → Result Fault Sandbox × W
  thaw id s w =
      let (r, w') = h.rt.unpause id w in elim r [ ok _ ↦ (ok s, w') | err e ↦ (err e, w') ]

  -- The `switch priorMode` of `Connect` and `Resume`.
  unfoldable pub wake : String → Sandbox → W → Result Fault Sandbox × W
  unfolding thaw
  wake id s w = elim s.pause_mode [ PauseMode.stopped ↦ resume_stopped s w | _ ↦ thaw id s w ]

  unfoldable pub connect : String → ℤ → Manager → W → Outcome W Sandbox
  connect id timeout m w = elim (lookup id m.sandboxes) [
    | none ↦ (err not_found, m, w)
    | some s ↦
        let (now, w1) = h.now w in
        let renewed : Sandbox = record s { expires_at = now +ℤ timeout } in
        let (woken, w2) = wake id renewed w1 in
        if has_lapsed now s
        then (err expired, m, w1)
        else if not (is_paused s.state)
        then (ok renewed, put id renewed m, w1)
        else elim woken [
          | ok s' ↦ (ok (awake s'), put id (awake s') m, w2)
          | err e ↦ (
            err (
                failed (wake_stage "connect: resume stopped" "connect: unpause" s.pause_mode) id e),
            put id renewed m,
            w2,
          )
        ]
  ]

  unfoldable pub pause : String → Manager → W → Outcome W Unit
  pause id m w = elim (lookup id m.sandboxes) [
    | none ↦ (err not_found, m, w)
    | some s ↦
        let (r, w1) = h.rt.pause id w in
        let (now, w2) = h.now w1 in
        if is_paused s.state then (ok tt, m, w) else elim r [
          | err e ↦ (err (failed "pause" id e), m, w1)
          | ok _ ↦
              let paused' : Sandbox = record s {
                state = State.paused;
                pause_mode = frozen;
                paused_at = now;
              } in
              (ok tt, put id paused' m, w2)
        ]
  ]

  -- `docker stop` of a sandbox that is not frozen, and its record.
  unfoldable pub halt : String → Sandbox → Manager → W → Outcome W Unit
  halt id s m w =
      let (r, w1) = h.rt.stop id w in
      let (now, w2) = h.now w1 in
      elim r [
        | err e ↦ (err (failed "stop" id e), m, w1)
        | ok _ ↦
            let stopped' : Sandbox = record s {
              state = State.paused;
              pause_mode = PauseMode.stopped;
              paused_at = now;
            } in
            (ok tt, put id stopped' m, w2)
      ]

  unfoldable pub stop : String → Manager → W → Outcome W Unit
  stop id m w = elim (lookup id m.sandboxes) [
    | none ↦ (err not_found, m, w)
    | some s ↦
        let (thawed, w1) = h.rt.unpause id w in
        if is_paused s.state && is_stopped s.pause_mode
        then (ok tt, m, w)
        else if is_frozen s.pause_mode
        then elim thawed [
          | err e ↦ (err (failed "stop: unpause-before-stop" id e), m, w1)
          | ok _ ↦ halt id s m w1
        ]
        else halt id s m w
  ]

  unfoldable pub resume : String → Manager → W → Outcome W Unit
  resume id m w = elim (lookup id m.sandboxes) [
    | none ↦ (err not_found, m, w)
    | some s ↦
        let (woken, w1) = wake id s w in
        if not (is_paused s.state) then (ok tt, m, w) else elim woken [
          | ok s' ↦ (ok tt, put id (awake s') m, w1)
          | err e ↦ (err (failed (wake_stage "resume" "resume: unpause" s.pause_mode) id e), m, w1)
        ]
  ]
