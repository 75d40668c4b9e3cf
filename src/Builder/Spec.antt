-- ===== src/Builder/Spec.antt =====
-- internal/template/template.go: what a client asks to be built.
use edvabe.Prelude.{String, Bool, Option, List}
use edvabe.Builder.Translate.{Step}

pub record RegistryAuth : Type 0 where
  pub username : String
  pub password : String
  pub server_address : String

-- An absent registry is `none`.
pub record BuildSpec : Type 0 where
  pub from_image : String
  pub from_template : String
  pub from_image_registry : Option RegistryAuth
  pub steps : List Step
  pub start_cmd : String
  pub ready_cmd : String
  pub force : Bool
