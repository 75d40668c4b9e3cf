-- ===== src/Template.antt =====
-- internal/template/template.go: a template and its builds. `Step` is in
-- Builder/Translate; `BuildSpec` and `RegistryAuth`, which the store does not touch, are left out.
pub mod Store
pub mod Resolver
use edvabe.Prelude.{String, Bool, Option, none, some, List, [], ◌∷◌}
use edvabe.Prelude.Int.{ℤ}

pub data BuildStatus : Type 0 where
  waiting building ready error : BuildStatus

pub record Build : Type 0 where
  pub id : String
  pub status : BuildStatus
  pub reason : String
  pub started_at : ℤ
  pub finished_at : Option ℤ

-- An absent list of tags or builds is the empty one.
pub record Template : Type 0 where
  pub id : String
  pub name : String
  pub tags : List String
  pub alias : String
  pub cpu_count : ℤ
  pub memory_mb : ℤ
  pub start_cmd : String
  pub ready_cmd : String
  pub image_tag : String
  pub is_public : Bool
  pub created_at : ℤ
  pub builds : List Build

-- The last build that is ready, if any.
unfoldable pub latest_ready : List Build → Option Build
latest_ready [] = none
latest_ready (b ∷ bs) =
    let later = latest_ready bs in
    elim later [ some c ↦ some c | none ↦ elim b.status [ BuildStatus.ready ↦ some b | _ ↦ none ] ]
