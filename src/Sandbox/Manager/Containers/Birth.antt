-- ===== src/Sandbox/Manager/Containers/Birth.antt =====
-- `Create` and the containers: a new sandbox has a running container, and a failure leaves none.
use edvabe.Prelude.{
  String, ◌≡◌, ◌≢◌, refl, sym, ◌∙◌, subst, inl, inr, none, some, arith, Option, Option-cases, ◌==◌,
  eq_iff, Bool-cases,
}
use edvabe.Prelude.Int.{ℤ}
use edvabe.Prelude.Result.{Result, ok, err, Result-cases}
use edvabe.Runtime.{ContainerState, CreateRequest, SandboxHandle}
use edvabe.Runtime.Laws.{Moves, IsQuiet, IsQuiet-trans}
use edvabe.Agent.{InitConfig}
use edvabe.Sandbox.{Sandbox, Error}
use edvabe.Sandbox.Host.{Host, TemplateResolution}
use edvabe.Sandbox.Host.Laws.{IsHost}
use edvabe.Sandbox.Manager.{Manager}
use edvabe.Sandbox.Manager.Create.{
  CreateOptions, with_defaults, draft, resolve_template, handshake, request, enlist, create,
}
use edvabe.Sandbox.Manager.Containers.{Apart}

module _ {W : Type 0} (view : W → String → Option ContainerState) (Sound : W → Type 0) (h : Host W)
    (lawful : IsHost view Sound h) where
  handshake-IsQuiet :
      (at : String × ℤ) (c : InitConfig) (cmd : String) (t : ℤ) (w : W)
      → Sound w
      → IsQuiet view Sound w (handshake h at c cmd t w).1
  unfolding handshake
  handshake-IsQuiet at c cmd t w sound =
      let w1 = (h.ap.ping at w).1 in
      let w2 = (h.ap.init_agent at c w1).1 in
      let w3 = (h.ap.wait_ready at cmd c.access_token t w2).1 in
      let q1 = lawful.ping_quiet at w sound in
      let q2 = IsQuiet-trans view Sound w w1 w2 q1 (lawful.init_quiet at c w1 q1.sound) in
      let q3 =
        IsQuiet-trans view Sound w w2 w3 q2
          (lawful.ready_quiet at cmd c.access_token t w2 q2.sound) in
      ground (arith, q1, q2, q3)

  -- What `enlist` makes of a world in which the new container runs: on success it still does and no
  -- other has moved; on failure the container has been asked to go.
  record Enlisted (id : String) (w : W) (r : Result Error Sandbox × Manager × W) : Type 0 where
    sound : Sound r.2
    others : Apart view Sound id w r.2
    kept : (s : Sandbox) → r.0 ≡ ok s → view r.2 id ≡ view w id
    gone :
        (e : Error)
        → ((j : String) (w' : W) (c : ContainerState)
            → view w' j ≡ some c
            → (h.rt.destroy j w').0 ≡ ok tt)
        → view w id ≡ some ContainerState.running
        → r.0 ≡ err e
        → view r.2 id ≡ none

  enlist-Enlisted :
      (opts : CreateOptions) (res : TemplateResolution) (d : Sandbox) (handle : SandboxHandle)
      (m : Manager) (w : W)
      → Sound w
      → Enlisted d.id w (enlist h opts res d handle m w)
  unfolding enlist
  enlist-Enlisted opts res d handle m w sound = elim (Result-cases greeted.0) [
    | inl (_, welcome) ↦
        rw (welcome, enlist)
          (record {
            sound = q3.sound;
            others = λ j ne. q3.same j ∙ q1.same j;
            kept = λ s e. q3.same d.id ∙ q1.same d.id;
            gone = λ e can up q. cc;
          })
    | inr (f, refused) ↦
        rw (refused, enlist)
          (record {
            sound = moved.sound;
            others = λ j ne. moved.others j ne ∙ q1.same j;
            kept = λ s e. cc;
            gone = λ e can up q.
                moved.done tt (can d.id greeted.1 ContainerState.running (q1.same d.id ∙ up));
          })
  ]
    where
      config : InitConfig
      config = record {
        access_token = d.envd_token;
        env_vars = opts.env_vars;
        default_user = "user";
        default_workdir = "/home/user";
      }

      greeted : Result (String × String) (Unit {0}) × W
      greeted =
          handshake h (handle.agent_host, handle.agent_port) config res.ready_cmd opts.timeout w

      q1 : IsQuiet view Sound w greeted.1
      q1 = handshake-IsQuiet _ _ _ _ w sound

      moved : Moves view Sound d.id none greeted.1 (h.rt.destroy d.id greeted.1)
      moved = lawful.runtime.destroy_moves d.id greeted.1 q1.sound

      q3 : IsQuiet view Sound greeted.1 (h.now greeted.1).1
      q3 = lawful.now_quiet greeted.1 q1.sound

  -- The world in which `Create` has its names and asks for the container.
  named_world : W → W
  named_world w = (h.new_traffic_token (h.new_envd_token (h.new_sandbox_id w).1).1).1

  named_world-IsQuiet : (w : W) → Sound w → IsQuiet view Sound w (named_world w)
  unfolding named_world
  named_world-IsQuiet w sound =
      let w1 = (h.new_sandbox_id w).1 in
      let w2 = (h.new_envd_token w1).1 in
      let q1 = lawful.sandbox_id_quiet w sound in
      let q2 = IsQuiet-trans view Sound w w1 w2 q1 (lawful.envd_token_quiet w1 q1.sound) in
      IsQuiet-trans view Sound w w2 (h.new_traffic_token w2).1 q2
        (lawful.traffic_token_quiet w2 q2.sound)

  -- A name for which the runtime has made a container had none before.
  create-fresh :
      (q : CreateRequest) (handle : SandboxHandle) (w : W)
      → Sound w
      → (h.rt.create q w).0 ≡ ok handle
      → view w q.sandbox_id ≡ none
  create-fresh q handle w sound made = elim (Option-cases (view w q.sandbox_id)) [
    | inl e ↦ e
    | inr (c, e) ↦ absurd (let (f, taken) = lawful.runtime.create_taken q w c sound e in cc)
  ]

  -- What `Create` leaves of the containers.
  pub record Born (w : W) (r : Result Error Sandbox × Manager × W) : Type 0 where
    pub sound : Sound r.2
    pub others : Apart view Sound (h.new_sandbox_id w).0 w r.2
    pub named : (s : Sandbox) → r.0 ≡ ok s → s.id ≡ (h.new_sandbox_id w).0
    pub taken :
        (c : ContainerState)
        → view w (h.new_sandbox_id w).0 ≡ some c
        → view r.2 (h.new_sandbox_id w).0 ≡ some c
    pub success :
        (s : Sandbox)
        → r.0 ≡ ok s
        → (view w s.id ≡ none) × (view r.2 s.id ≡ some ContainerState.running)
    pub failure :
        (e : Error)
        → ((j : String) (w' : W) (c : ContainerState)
            → view w' j ≡ some c
            → (h.rt.destroy j w').0 ≡ ok tt)
        → r.0 ≡ err e
        → (j : String) → view r.2 j ≡ view w j

  refused-Born :
      (m : Manager) (w : W) (e : Error) (moved : Result String SandboxHandle × W)
      → Moves view Sound (h.new_sandbox_id w).0 (some ContainerState.running) (named_world w) moved
      → IsQuiet view Sound w (named_world w)
      → (f : String) → moved.0 ≡ err f
      → Born w (err e, m, moved.1)
  refused-Born m w e made moved q f refused = record {
    sound = moved.sound;
    others = λ j ne. moved.others j ne ∙ q.same j;
    named = λ s e. cc;
    taken = λ c e. moved.failed f refused ∙ q.same (h.new_sandbox_id w).0 ∙ e;
    success = λ s e. cc;
    failure = λ e can q' j. elim (Bool-cases ((h.new_sandbox_id w).0 == j)) [
      | inl same ↦
          subst (λ i. view made.1 i ≡ view w i) ((eq_iff (h.new_sandbox_id w).0 j).0 same)
            (moved.failed f refused ∙ q.same (h.new_sandbox_id w).0)
      | inr other ↦ ground (arith, eq_iff (h.new_sandbox_id w).0 j, moved.others j, q.same j)
    ];
  }

  made-Born :
      (opts : CreateOptions) (res : TemplateResolution) (d : Sandbox) (handle : SandboxHandle)
      (m : Manager) (w : W) (made : Result String SandboxHandle × W)
      → Moves view Sound (h.new_sandbox_id w).0 (some ContainerState.running) (named_world w) made
      → IsQuiet view Sound w (named_world w)
      → made.0 ≡ ok handle
      → d.id ≡ (h.new_sandbox_id w).0
      → view (named_world w) d.id ≡ none
      → ((s : Sandbox) → (enlist h opts res d handle m made.1).0 ≡ ok s → s.id ≡ d.id)
      → Born w (enlist h opts res d handle m made.1)
  made-Born opts res d handle m w made moved q done name fresh named =
      let t = enlist-Enlisted opts res d handle m made.1 moved.sound in
      record {
        sound = t.sound;
        others = λ j ne. ground (arith, name, t.others j, moved.others j, q.same j, ne);
        named = λ s e. named s e ∙ name;
        taken = λ c e. absurd (
            let e' = q.same (h.new_sandbox_id w).0 in
            let fresh' = subst (λ i. view (named_world w) i ≡ none) name fresh in cc);
        success = λ s e.
            let same = named s e in
            rw same (
              (rw name (sym (q.same (h.new_sandbox_id w).0)) ∙ fresh),
              (t.kept s e ∙ rw name (moved.done handle done)),
            );
        failure = λ e can bad j. elim (Bool-cases (d.id == j)) [
          | inl same ↦
              subst (λ i. view (enlist h opts res d handle m made.1).2 i ≡ view w i)
                ((eq_iff d.id j).0 same)
                (t.gone e can (rw name (moved.done handle done)) bad ∙ sym fresh ∙ q.same d.id)
          | inr other ↦ ground (arith, eq_iff d.id j, name, t.others j, moved.others j, q.same j)
        ];
      }

  enlist-name :
      (opts : CreateOptions) (res : TemplateResolution) (d : Sandbox) (handle : SandboxHandle)
      (m : Manager) (w : W) (s : Sandbox)
      → (enlist h opts res d handle m w).0 ≡ ok s
      → s.id ≡ d.id
  unfolding enlist
  enlist-name opts res d handle m w s e = ground arith

  draft-id :
      (opts : CreateOptions) (id envd traffic : String) → (draft opts id envd traffic).id ≡ id
  unfolding draft
  draft-id opts id envd traffic = refl

  request-id :
      (opts : CreateOptions) (res : TemplateResolution) (id envd traffic : String)
      → (request h opts res id envd traffic).sandbox_id ≡ id
  unfolding request
  request-id opts res id envd traffic = refl

  pub create-Born :
      (given : CreateOptions) (m : Manager) (w : W) → Sound w → Born w (create h given m w)
  unfolding create named_world
  create-Born given m w sound =
      let opts = with_defaults given in
      let res = resolve_template h m opts.template_id w in
      let (id, w1) = h.new_sandbox_id w in
      let (envd, w2) = h.new_envd_token w1 in
      let (traffic, w3) = h.new_traffic_token w2 in
      let asked = request h opts res id envd traffic in
      let made = h.rt.create asked w3 in
      let d = draft opts id envd traffic in
      let q = named_world-IsQuiet w sound in
      let moved =
        subst (λ i. Moves view Sound i (some ContainerState.running) w3 made)
          (request-id opts res id envd traffic) (lawful.runtime.create_moves asked w3 q.sound) in
      elim (Result-cases made.0) [
        | inr (f, refused) ↦ rw (refused, create) (refused-Born m w _ made moved q f refused)
        | inl (handle, done) ↦
            let fresh =
              subst (λ i. view w3 i ≡ none) (request-id opts res id envd traffic)
                (create-fresh asked handle w3 q.sound done) in
            rw (done, create)
              (made-Born opts res d handle m w made moved q done (draft-id opts id envd traffic)
                (rw (draft-id opts id envd traffic) fresh) (enlist-name opts res d handle m made.1))
      ]

  -- Over a host that keeps its promises, a `Create` that returns a sandbox has moved no container
  -- but the sandbox's: its name had none before, and has a running one now.
  pub create-running :
      (given : CreateOptions) (m : Manager) (w : W) (s : Sandbox)
      → Sound w
      → (create h given m w).0 ≡ ok s
      → let w' = (create h given m w).2 in
        (view w s.id ≡ none)
        × (view w' s.id ≡ some ContainerState.running)
        × ((j : String) → s.id ≢ j → view w' j ≡ view w j)
  create-running given m w s sound e =
      let born = create-Born given m w sound in
      (
        (born.success s e).0,
        (born.success s e).1,
        λ j ne. born.others j (ground (arith, born.named s e, ne)),
      )

  -- Over a host that keeps its promises and whose runtime never fails to destroy a container that
  -- exists, a `Create` that fails leaves every container as it was: none is leaked.
  pub create-leaks_nothing :
      (given : CreateOptions) (m : Manager) (w : W) (e : Error)
      → Sound w
      → ((j : String) (w' : W) (c : ContainerState)
          → view w' j ≡ some c
          → (h.rt.destroy j w').0 ≡ ok tt)
      → (create h given m w).0 ≡ err e
      → (j : String) → view (create h given m w).2 j ≡ view w j
  create-leaks_nothing given m w e sound can bad j =
      (create-Born given m w sound).failure e can bad j
