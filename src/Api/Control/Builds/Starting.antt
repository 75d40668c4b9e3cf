-- ===== src/Api/Control/Builds/Starting.antt =====
-- What a request to start a build leaves in the manager of builds and in the template store.
use Prim.Native.String.{String, ◌++◌ as ◌+++◌}
use edvabe.Prelude.{◌≡◌, ◌≢◌, Option, none, some}
use edvabe.Prelude.Int.{ℤ}
use edvabe.Prelude.Dict.{lookup}
use edvabe.Prelude.Result.{ok}
use edvabe.Template.{Template, BuildStatus}
use edvabe.Template.Store.{Store, Files}
use edvabe.Builder.Spec.{BuildSpec}
use edvabe.Builder.Manager.{RunningBuild, status}
use edvabe.Api.{Reply, no_body}
use edvabe.Api.Control.Builds.{Server}

-- A concatenation that computes by the characters of its first part.
unfoldable onto : String → String → String
onto String.[] s = s
onto (String.◌∷◌ c p) s = String.◌∷◌ c (onto p s)

module _ {W : Type 0} (fs : Files W) (decode : String → Option BuildSpec) (now : ℤ) where
  -- An accepted build, in the manager and in the store.
  abbrev pub IsStarted : String → Server W → Server W → Type 0
  IsStarted build_id s t =
      (b : RunningBuild) × (tpl : Template) × (lookup build_id s.manager.builds ≡ none)
      × (status build_id t.manager ≡ ok b)
      × (b.status ≡ BuildStatus.waiting)
      × (lookup build_id t.threads ≢ none)
      × (lookup b.template_id t.world.0.templates ≡ some tpl)
      × (tpl.image_tag ≡ b.result_tag)

  -- An answer that, when it accepts, has started the build.
  record Honest (build_id : String) (s : Server W) (answer : Reply Unit × Server W) : Type 0 where
    started : answer.0 ≡ no_body 202 → IsStarted build_id s answer.1
