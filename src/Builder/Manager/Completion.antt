-- ===== src/Builder/Manager/Completion.antt =====
-- cmd/edvabe/main.go: the callback that writes the outcome of a build to the template store, and
-- what it does under the manager of builds.
use edvabe.Prelude.{
  from_some, ◌≡◌, ◌≢◌, refl, sym, ◌∙◌, ap, subst, String, ◌==◌, if◌then◌else◌, Option, none, some,
  List, [], ◌∷◌, arith, Option-cases, Bool-cases, inl, inr,
}
use edvabe.Prelude.Int.{ℤ}
use edvabe.Prelude.Dict.{lookup, lookup-insert_self}
use edvabe.Prelude.Result.{ok}
use edvabe.Template.{Build, Template}
use edvabe.Template.Store.{Store, Files, flushed, update_build, change_build}
use edvabe.Builder.Manager.{
  Manager, RunningBuild, BuildResult, Phase, executing, returns, go, finish, log_line, notify,
  result_of, status,
}
use edvabe.Builder.Manager.History.{
  System, Event, enqueues, cancels, moves, take_turn, after, started, Turned, take_turn-Turned,
  take_turn-Enqueued, take_turn-Cancelled,
}
use edvabe.Builder.Manager.Moving.{Agrees, Fits, go-Fits}
use edvabe.Builder.Manager.Lifecycle.{after-IsTracked, tracked_at}

-- The first build with the identifier.
abbrev pub find_build : String → List Build → Option Build
find_build id [] = none
find_build id (b ∷ bs) = if b.id == id then some b else find_build id bs

-- `time.Now` is the clock of the store's world.
unfoldable pub complete : {W : Type 0} → Files W → BuildResult → Store × W → Store × W
complete fs result (s, w) =
    let (now, w1) = fs.now w in
    let mutator = λ (b : Build). record b {
      status = result.status;
      reason = result.reason;
      finished_at = some now;
    } in
    let (_, s', w') = update_build fs result.template_id result.build_id mutator s w1 in (s', w')

find_build-change_build :
    (id : String) (f : Build → Build) (bs : List Build) (b : Build)
    → ((c : Build) → (f c).id ≡ c.id)
    → find_build id bs ≡ some b
    → (cs : List Build) × (change_build id f bs ≡ some cs) × (find_build id cs ≡ some (f b))
unfolding change_build
find_build-change_build id f [] b same h = absurd (ground (arith, h))
find_build-change_build id f (c ∷ bs) b same h = elim (Bool-cases (c.id == id)) [
  | inl here ↦ (f b ∷ bs, ground (arith, h, here), ground (arith, h, here, same b, same c))
  | inr other ↦
      let (cs, changed, found) =
        find_build-change_build id f bs b same (ground (arith, h, other)) in
      (c ∷ cs, ground (arith, changed, other), ground (arith, found, other))
]

-- What a callback leaves when the store knows the build.
complete-find_build :
    {W : Type 0} (fs : Files W) (r : BuildResult) (s : Store) (w : W) (t : Template) (b : Build)
    → lookup r.template_id s.templates ≡ some t
    → find_build r.build_id t.builds ≡ some b
    → (t' : Template) × (b' : Build) × (lookup r.template_id (complete fs r (s, w)).0.templates
        ≡ some t')
      × (find_build r.build_id t'.builds ≡ some b')
      × (b'.status ≡ r.status)
      × (b'.reason ≡ r.reason)
      × (b'.finished_at ≢ none)
unfolding complete update_build flushed
complete-find_build fs r s w t b at found =
    let now = (fs.now w).0 in
    let (bs, changed, found') =
      find_build-change_build r.build_id
        (λ (c : Build). record c { status = r.status; reason = r.reason; finished_at = some now })
        t.builds b (λ c. refl) found in
    (
      record t { builds = bs },
      record b { status = r.status; reason = r.reason; finished_at = some now },
      ground (
        arith,
        at,
        changed,
        lookup-insert_self r.template_id (record t { builds = bs }) s.templates,
      ),
      found',
      refl,
      refl,
      λ e. cc,
    )

-- What OnComplete is told is what the manager shows.
record Tells (r : BuildResult) (b : RunningBuild) : Type 0 where
  same_template : r.template_id ≡ b.template_id
  same_build : r.build_id ≡ b.build_id
  same_status : r.status ≡ b.status
  same_reason : r.reason ≡ b.reason

abbrev Reports : Option String → Option (Phase × RunningBuild) → Type 0
Reports outcome none = Unit
Reports outcome (some (next, b)) = Tells (result_of outcome b) b

go-Reports :
    (outcome : Option String) (now : ℤ) (phase : Phase) (b : RunningBuild)
    → Agrees phase b
    → Reports outcome (go (returns outcome now) phase b)
unfolding go finish log_line result_of
go-Reports none now (executing spec) b v = record {
  same_template = refl;
  same_build = refl;
  same_status = refl;
  same_reason = sym v.1;
}
go-Reports (some e) now (executing spec) b v = record {
  same_template = refl;
  same_build = refl;
  same_status = refl;
  same_reason = refl;
}
go-Reports _ now _ b v = tt

module _ {W : Type 0} where
  take_turn-same_call :
      (e : Event) (s t : System W)
      → take_turn e s ≡ some t
      → t.manager.on_complete ≡ s.manager.on_complete
  take_turn-same_call (enqueues req now) s t h = elim (take_turn-Enqueued s t req now h) [
    | inl same ↦ ap (λ u. u.manager.on_complete) (sym same)
    | inr (_, _, _, same, _) ↦ same
  ]
  take_turn-same_call (cancels id) s t h = elim (take_turn-Cancelled s t id h) [
    | inl same ↦ ap (λ u. u.manager.on_complete) (sym same)
    | inr (_, _, _, _, same, _) ↦ same
  ]
  take_turn-same_call (moves id move) s t h = (take_turn-Turned s t id move h).same_call

  after-same_call :
      (es : List Event) (s t : System W)
      → after es s ≡ some t
      → t.manager.on_complete ≡ s.manager.on_complete
  unfolding after
  after-same_call [] s t h = ap (λ u. u.manager.on_complete) (sym (from_some h))
  after-same_call (e ∷ es) s t h = elim (Option-cases (after es s)) [
    | inl stuck ↦ absurd (ground (arith, h, stuck))
    | inr (u, before) ↦
        take_turn-same_call e u t (ground (arith, h, before)) ∙ after-same_call es s u before
  ]

module _ {W : Type 0} (fs : Files W) where
  told :
      (s t : System (Store × W)) (id : String) (outcome : Option String) (now : ℤ)
      → s.manager.on_complete ≡ some (complete fs)
      → (r : Turned s t id (returns outcome now))
      → t.world ≡ complete fs (result_of outcome r.build_after) s.world
  unfolding notify
  told s t id outcome now call r =
      r.world_after ∙ ap (λ f. notify f (returns outcome now) r.build_after s.world) call

  -- When the manager of builds calls back into the template store, and a build of a template in that
  -- store comes back from its executor after any history, then right after that move the store's
  -- record of the build has a finishing instant, and the very status and reason that the manager
  -- shows at that moment.
  pub returns-persisted :
      (es : List Event) (m : Manager (Store × W)) (w : Store × W) (s t : System (Store × W))
      → m.builds ≡ []
      → m.on_complete ≡ some (complete fs)
      → after es (started m w) ≡ some s
      → (id : String) (outcome : Option String) (now : ℤ)
      → take_turn (moves id (returns outcome now)) s ≡ some t
      → (r : RunningBuild) → status id s.manager ≡ ok r
      → (tpl : Template) → lookup r.template_id s.world.0.templates ≡ some tpl
      → (b : Build) → find_build id tpl.builds ≡ some b
      → (r' : RunningBuild) × (tpl' : Template) × (b' : Build) × (status id t.manager ≡ ok r')
        × (lookup r.template_id t.world.0.templates ≡ some tpl')
        × (find_build id tpl'.builds ≡ some b')
        × (b'.status ≡ r'.status)
        × (b'.reason ≡ r'.reason)
        × (b'.finished_at ≢ none)
  unfolding status
  returns-persisted es m w s t empty call before id outcome now turn r known tpl has b found =
      let u = take_turn-Turned s t id (returns outcome now) turn in
      let r_is : u.build ≡ r = shown known u.at in
      let v =
        tracked_at es s id u.build u.phase (after-IsTracked es m w s empty before id) u.at
          u.thread in
      let f =
        subst (Fits (returns outcome now) u.build) u.went
          (go-Fits (returns outcome now) u.phase u.build v.staged) in
      let tells =
        subst (Reports outcome) u.went (go-Reports outcome now u.phase u.build v.staged) in
      let of_template = tells.same_template ∙ f.same_template ∙ ap (λ x. x.template_id) r_is in
      let of_build = tells.same_build ∙ f.same_id ∙ v.identified in
      let result = result_of outcome u.build_after in
      let (tpl', b', has', found', status', reason', ended') =
        complete-find_build fs result s.world.0 s.world.1 tpl b
          (ap (λ i. lookup i s.world.0.templates) of_template ∙ has)
          (ap (λ i. find_build i tpl.builds) of_build ∙ found) in
      (
        u.build_after,
        tpl',
        b',
        rw (status, u.builds_after, lookup-insert_self id u.build_after s.manager.builds) refl,
        ap (λ x. lookup r.template_id x.0.templates)
              (told s t id outcome now (after-same_call es (started m w) s before ∙ call) u)
            ∙ ap (λ i. lookup i (complete fs result s.world).0.templates) (sym of_template)
            ∙ has',
        ap (λ i. find_build i tpl'.builds) (sym of_build) ∙ found',
        status' ∙ tells.same_status,
        reason' ∙ tells.same_reason,
        ended',
      )
    where
      shown :
          {x : RunningBuild}
          → status id s.manager ≡ ok r
          → lookup id s.manager.builds ≡ some x
          → x ≡ r
      shown known at = ground (arith, known, at)
