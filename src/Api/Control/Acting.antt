-- ===== src/Api/Control/Acting.antt =====
-- The control plane against the table of what requests ask for: that call, and no other, is what
-- becomes of the registry.
use edvabe.Prelude.{
  String, ◌≡◌, refl, sym, subst, Bool, true, false, Option, none, some, if◌then◌else◌, arith,
}
use edvabe.Prelude.Int.{ℤ, pos, ltb_ℤ}
use edvabe.Prelude.Result.{Result, ok, err}
use edvabe.Runtime.{Fault}
use edvabe.Sandbox.{Error}
use edvabe.Sandbox.Host.{Host}
use edvabe.Sandbox.Manager.{Manager, Outcome, get, set_timeout}
use edvabe.Sandbox.Manager.Snapshot.{snapshot}
use edvabe.Sandbox.Manager.History.{
  Call, creates, destroys, sets_timeout, connects, pauses, step, state_after,
}
use edvabe.Text.{trim_prefix}
use edvabe.Api.{Request, Reply, replied, no_body}
use edvabe.Api.Control.Sandboxes.{
  Json, Stats, Payload, no_logs, Served, reply_of, seconds, id_before, sandbox_id_from_path,
  is_bad_id, write_manager_error,
}
use edvabe.Api.Control.Routes.{
  options_of_request, optional, create_sandbox, get_sandbox, delete_sandbox, set_sandbox_timeout,
  connected, connect_sandbox, resume_sandbox, pause_sandbox, snapshot_sandbox, when_known,
  update_sandbox_network, get_sandbox_logs, get_sandbox_metrics, get_batch_sandbox_metrics,
  refresh_sandbox, handle, endpoint, serve, Endpoint, post_sandboxes, list_all, batch_of_metrics,
  one_metrics, logs_of, get_one, delete_one, post_timeout, post_connect, post_pause, post_resume,
  post_snapshots, post_refreshes, put_network, nowhere,
}
use edvabe.Api.Control.Asked.{
  on_sandbox, segment, creation, for_seconds, or_five_minutes, if_positive, body_or, asked,
  asked_at, asked-endpoint,
}

-- A reply after the call that is given, or with the registry as it was if none is.
abbrev pub Does : {W : Type 0} → Host W → Option Call → Manager → W → Served W → Type 0
Does h none m w (reply, m', w') = m' ≡ m
Does h (some c) m w (reply, m', w') = step h c m w ≡ (m', w')

module _ {W : Type 0} (h : Host W) (version : String) (json : Json)
    (stats : String → W → Result Fault Stats × W) (format_time : ℤ → String) where
  if-Does :
      (m : Manager) (w : W) (b : Bool) (o p : Option Call) (x y : Served W)
      → Does h o m w x
      → Does h p m w y
      → Does h (if b then o else p) m w (if b then x else y)
  if-Does m w true o p x y u v = u
  if-Does m w false o p x y u v = v

  idle-Does :
      (m : Manager) (w : W) (b : Bool) (x y : Served W)
      → Does h none m w x
      → Does h none m w y
      → Does h none m w (if b then x else y)
  idle-Does m w true x y u v = u
  idle-Does m w false x y u v = v

  reply_of-Does :
      {A : Type 0} (fault : Error → Reply Payload) (body : A → Manager → Reply Payload) (c : Call)
      (m : Manager) (w : W) (out : Outcome W A)
      → step h c m w ≡ state_after out
      → Does h (some c) m w (reply_of fault body out)
  reply_of-Does fault body c m w (ok a, m', w') e = e
  reply_of-Does fault body c m w (err x, m', w') e = e

  decoded-Does :
      {A : Type 0} (m : Manager) (w : W) (o : Option A) (p : Option A → Option Call) (x : Served W)
      (f : A → Served W)
      → Does h (p none) m w x
      → ((a : A) → Does h (p (some a)) m w (f a))
      → Does h (p o) m w (elim o [ none ↦ x | some a ↦ f a ])
  decoded-Does m w none p x f u v = u
  decoded-Does m w (some a) p x f u v = v a

  idle_result-Does :
      {E A : Type 0} (m : Manager) (w : W) (r : Result E A) (f : E → Served W) (g : A → Served W)
      → ((e : E) → Does h none m w (f e))
      → ((a : A) → Does h none m w (g a))
      → Does h none m w (elim r [ err e ↦ f e | ok a ↦ g a ])
  idle_result-Does m w (err e) f g u v = u e
  idle_result-Does m w (ok a) f g u v = v a

  create_sandbox-Does :
      (body : String) (m : Manager) (w : W)
      → Does h
          (creation (json.decode_new_sandbox body))
          m
          w
          (create_sandbox h version json stats format_time body m w)
  unfolding create_sandbox step options_of_request
  create_sandbox-Does body m w =
      decoded-Does m w (json.decode_new_sandbox body) creation _ _ refl
        (λ req. reply_of-Does _ _ (creates (options_of_request req)) m w _ refl)

  get_sandbox-Does :
      (path : String) (m : Manager) (w : W)
      → Does h none m w (get_sandbox h version json stats format_time path m w)
  unfolding get_sandbox
  get_sandbox-Does path m w = idle-Does m w (is_bad_id (sandbox_id_from_path path)) _ _ refl (
      idle_result-Does m w (get m (sandbox_id_from_path path)) _ _ (λ e. refl)
        (λ s.
          idle_result-Does m w (stats (sandbox_id_from_path path) w).0 _ _ (λ e. refl)
            (λ st. refl)))

  delete_sandbox-Does :
      (path : String) (m : Manager) (w : W)
      → Does h
          (on_sandbox (trim_prefix path "/sandboxes/") (λ id. some (destroys id)))
          m
          w
          (delete_sandbox h version json stats format_time path m w)
  unfolding delete_sandbox step sandbox_id_from_path
  delete_sandbox-Does path m w =
      if-Does m w (is_bad_id (sandbox_id_from_path path)) none _ _ _ refl
        (reply_of-Does _ _ (destroys (sandbox_id_from_path path)) m w _ refl)

  set_sandbox_timeout-Does :
      (path body : String) (m : Manager) (w : W)
      → Does h
          (on_sandbox
            (segment "/timeout" path)
            (for_seconds sets_timeout (json.decode_timeout body)))
          m
          w
          (set_sandbox_timeout h version json stats format_time path body m w)
  unfolding set_sandbox_timeout step id_before sandbox_id_from_path
  set_sandbox_timeout-Does path body m w =
      let id = segment "/timeout" path in
      if-Does m w (is_bad_id id) none _ _ _ refl (
        decoded-Does m w (json.decode_timeout body) (λ o. for_seconds sets_timeout o id) _ _ refl
          (λ t. reply_of-Does _ _ (sets_timeout id (seconds t)) m w _ refl))

  connected-Does :
      (id : String) (t : ℤ) (m : Manager) (w : W)
      → Does h (some (connects id t)) m w (connected h version json stats format_time id t m w)
  unfolding connected step
  connected-Does id t m w = reply_of-Does _ _ (connects id t) m w _ refl

  connect_sandbox-Does :
      (path body : String) (m : Manager) (w : W)
      → Does h
          (on_sandbox (segment "/connect" path) (for_seconds connects (json.decode_timeout body)))
          m
          w
          (connect_sandbox h version json stats format_time path body m w)
  unfolding connect_sandbox id_before sandbox_id_from_path
  connect_sandbox-Does path body m w =
      let id = segment "/connect" path in
      if-Does m w (is_bad_id id) none _ _ _ refl (
        decoded-Does m w (json.decode_timeout body) (λ o. for_seconds connects o id) _ _ refl
          (λ t. connected-Does id (seconds t) m w))

  resume_sandbox-Does :
      (r : Request) (m : Manager) (w : W)
      → Does h
          (on_sandbox
            (segment "/resume" r.path)
            (or_five_minutes connects (body_or (pos 0) json.decode_timeout r)))
          m
          w
          (resume_sandbox h version json stats format_time r.path r.content_length r.body m w)
  unfolding resume_sandbox id_before sandbox_id_from_path
  resume_sandbox-Does r m w =
      let id = segment "/resume" r.path in
      if-Does m w (is_bad_id id) none _ _ _ refl (
        decoded-Does m w (body_or (pos 0) json.decode_timeout r)
          (λ o. or_five_minutes connects o id) _ _ refl (λ t. connected-Does id _ m w))

  pause_sandbox-Does :
      (path : String) (m : Manager) (w : W)
      → Does h
          (on_sandbox (segment "/pause" path) (λ id. some (pauses id)))
          m
          w
          (pause_sandbox h version json stats format_time path m w)
  unfolding pause_sandbox step id_before sandbox_id_from_path
  pause_sandbox-Does path m w =
      if-Does m w (is_bad_id (segment "/pause" path)) none _ _ _ refl
        (reply_of-Does _ _ (pauses (segment "/pause" path)) m w _ refl)

  unmoved-Does :
      {A : Type 0} (fault : Error → Reply Payload) (body : A → Manager → Reply Payload)
      (m : Manager) (w : W) (out : Outcome W A)
      → out.1 ≡ m
      → Does h none m w (reply_of fault body out)
  unmoved-Does fault body m w (ok a, m', w') e = e
  unmoved-Does fault body m w (err x, m', w') e = e

  -- Snapshot leaves the registry alone.
  snapshot_sandbox-Does :
      (path : String) (length : ℤ) (body : String) (m : Manager) (w : W)
      → Does h none m w (snapshot_sandbox h version json stats format_time path length body m w)
  unfolding snapshot_sandbox
  snapshot_sandbox-Does path length body m w =
      idle-Does m w (is_bad_id (id_before "/snapshots" path)) _ _ refl (
        decoded-Does m w (optional "" json.decode_name length body) (λ _. none) _ _ refl
          (λ name.
            unmoved-Does _ _ m w (snapshot h format_time (id_before "/snapshots" path) name m w)
              (unfold snapshot in ground arith)))

  when_known-Does :
      (id : String) (m : Manager) (w : W) (next : Served W)
      → next.1 ≡ m
      → Does h none m w (when_known h version json stats format_time id m w next)
  unfolding when_known
  when_known-Does id m w next e =
      idle-Does m w (is_bad_id id) _ _ refl
        (idle_result-Does m w (get m id) _ _ (λ x. refl) (λ s. e))

  extension-Does :
      (id : String) (o : Option ℤ) (m : Manager) (w : W)
      → let t : ℤ = elim o [ none ↦ pos 0 | some d ↦ d ] in
        Does h (if_positive sets_timeout o id) m w (
          if ltb_ℤ (pos 0) t
          then reply_of write_manager_error (λ _ _. no_body 204) (set_timeout h id (seconds t) m w)
          else (no_body 204, m, w))
  unfolding step
  extension-Does id none m w = refl
  extension-Does id (some t) m w =
      if-Does m w (ltb_ℤ (pos 0) t) _ none _ _
        (reply_of-Does _ _ (sets_timeout id (seconds t)) m w _ refl) refl

  refresh_sandbox-Does :
      (r : Request) (m : Manager) (w : W)
      → Does h
          (on_sandbox
            (segment "/refreshes" r.path)
            (if_positive sets_timeout (body_or (pos 0) json.decode_duration r)))
          m
          w
          (refresh_sandbox h version json stats format_time r.path r.content_length r.body m w)
  unfolding refresh_sandbox step id_before sandbox_id_from_path
  refresh_sandbox-Does r m w =
      let id = segment "/refreshes" r.path in
      if-Does m w (is_bad_id id) none _ _ _ refl
        (extension-Does id (body_or (pos 0) json.decode_duration r) m w)

  handle-Does :
      (e : Endpoint) (r : Request) (m : Manager) (w : W)
      → Does h (asked_at e json r) m w (handle h version json stats format_time e r m w)
  unfolding handle update_sandbox_network get_sandbox_logs get_sandbox_metrics
      get_batch_sandbox_metrics
  handle-Does post_sandboxes r m w = create_sandbox-Does r.body m w
  handle-Does list_all r m w = refl
  handle-Does batch_of_metrics r m w = refl
  handle-Does one_metrics r m w = when_known-Does (id_before "/metrics" r.path) m w _ refl
  handle-Does logs_of r m w = when_known-Does _ m w (replied 200 no_logs, m, w) refl
  handle-Does get_one r m w = get_sandbox-Does r.path m w
  handle-Does delete_one r m w = delete_sandbox-Does r.path m w
  handle-Does post_timeout r m w = set_sandbox_timeout-Does r.path r.body m w
  handle-Does post_connect r m w = connect_sandbox-Does r.path r.body m w
  handle-Does post_pause r m w = pause_sandbox-Does r.path m w
  handle-Does post_resume r m w = resume_sandbox-Does r m w
  handle-Does post_snapshots r m w = snapshot_sandbox-Does r.path r.content_length r.body m w
  handle-Does post_refreshes r m w = refresh_sandbox-Does r m w
  handle-Does put_network r m w = when_known-Does _ m w (no_body 204, m, w) refl
  handle-Does nowhere r m w = refl

  -- Every request for sandboxes, well formed or not. One that asks for a call on the manager, by the
  -- table `asked`, leaves the registry and the world as that call leaves them, and any other leaves
  -- the registry as it was. By the table a request asks for nothing without a key, with a method
  -- other than POST and DELETE, with an identifier that is empty or has a slash, or with a body that
  -- its handler cannot read; and DELETE /sandboxes/{id} asks for Destroy, POST /sandboxes for Create,
  -- and POST with a path that ends in /timeout, /connect, /pause, /resume or /refreshes for
  -- SetTimeout, Connect, Pause, Connect and, with a positive duration, SetTimeout.
  pub serve-asked :
      (r : Request) (m : Manager) (w : W)
      → Does h (asked json r) m w (serve h version json stats format_time r m w)
  unfolding serve
  serve-asked r m w =
      subst (λ o. Does h o m w (serve h version json stats format_time r m w))
        (sym (asked-endpoint json r))
        (if-Does m w _ none _ _ _ refl (handle-Does (endpoint r) r m w))
