-- ===== src/Builder/Translate.antt =====
-- internal/template/builder/translate.go: build steps to the text of a Dockerfile, by way of the list
-- of the instructions that the code writes one after the other. The random text of a forced step and the decimal
-- digits of its index are parameters.
pub mod Lines
pub mod Users
use Prim.Native.Char.{Char, code}
use Prim.Native.Nat.{compare, Ordering}
use edvabe.Prelude.{
  ℕ, suc, String, ◌+++◌, Bool, true, false, ◌||◌, ◌&&◌, not, ◌==◌, if◌then◌else◌, List, [], ◌∷◌,
  ◌++◌,
}
use edvabe.Prelude.Result.{Result, ok, err}

pub record Step : Type 0 where
  pub kind : String
  pub args : List String
  pub files_hash : String
  pub force : Bool

pub record Input : Type 0 where
  pub from_image : String
  pub from_template_image : String
  pub steps : List Step
  pub staging_dir : String

pub data Line : Type 0 where
  from_line run_line user_line workdir_line cmd_line : String → Line
  copy_line : String → String → String → Line
  env_line : List String → Line
  arg_line : ℕ → String → Line

-- `bad_step` has the index of the step.
pub data TranslateError : Type 0 where
  no_base two_bases : TranslateError
  bad_step : ℕ → String → TranslateError
  no_random : String → TranslateError

abbrev pub envd_source_image : String
envd_source_image = "edvabe/envd-source:latest"

abbrev pub default_envd_init_path : String
default_envd_init_path = "/usr/local/bin/edvabe-init"

abbrev has_code : Char → ℕ → Bool
has_code c n = elim (compare (code c) n) [ Ordering.eq ↦ true | _ ↦ false ]

-- A blank, a tab, a quote, a backslash or a dollar sign.
unfoldable pub needs_quote : String → Bool
needs_quote String.[] = false
needs_quote (String.◌∷◌ c s) =
    has_code c 32
    || (has_code c 9 || (has_code c 34 || (has_code c 92 || (has_code c 36 || needs_quote s))))

unfoldable pub escape : String → String
escape String.[] = String.[]
escape (String.◌∷◌ c s) =
    let rest = String.◌∷◌ c (escape s) in
    if has_code c 34 || has_code c 92 then "\\" +++ rest else rest

unfoldable pub quote_env_value : String → String
quote_env_value v =
    if v == "" then "\"\"" else if needs_quote v then "\"" +++ (escape v +++ "\"") else v

-- The pairs of an ENV step, with the values quoted.
unfoldable pub quote_pairs : List String → List String
quote_pairs [] = []
quote_pairs (k ∷ []) = []
quote_pairs (k ∷ v ∷ rest) = (k +++ "=" +++ quote_env_value v) ∷ quote_pairs rest

abbrev is_even_length : List String → Bool
is_even_length [] = true
is_even_length (a ∷ []) = false
is_even_length (a ∷ b ∷ rest) = is_even_length rest

-- The lines of a step and the user after them.
abbrev pub Translated : Type 0
Translated = Result TranslateError (List Line × String)

abbrev run_as : String → String → String → List Line
run_as user cmd other =
    if not (other == "") && not (other == user)
    then user_line other ∷ run_line cmd ∷ user_line user ∷ []
    else run_line cmd ∷ []

unfoldable pub run_lines : String → ℕ → List String → Translated
run_lines user i [] = err (bad_step i "RUN requires at least one arg (the command)")
run_lines user i (cmd ∷ []) = ok (run_line cmd ∷ [], user)
run_lines user i (cmd ∷ other ∷ rest) = ok (run_as user cmd other, user)

abbrev chown_of : String → String → String
chown_of user chown = if chown == "" && not (user == "root") then user else chown

abbrev flag_of : String → String → String
flag_of name value = if value == "" then "" else name +++ value

abbrev copy_flags : String → List String → String
copy_flags user [] = flag_of " --chown=" (chown_of user "")
copy_flags user (chown ∷ []) = flag_of " --chown=" (chown_of user chown)
copy_flags user (chown ∷ chmod ∷ rest) =
    flag_of " --chown=" (chown_of user chown) +++ flag_of " --chmod=" chmod

unfoldable pub copy_lines : String → String → ℕ → String → List String → Translated
copy_lines staging user i hash (src ∷ dest ∷ more) =
    if hash == ""
    then err (bad_step i "COPY requires filesHash")
    else ok (
      copy_line (copy_flags user more) (staging +++ "/" +++ hash +++ "/" +++ src) dest ∷ [],
      user,
    )
copy_lines staging user i hash _ = err (bad_step i "COPY requires at least [src, dest]")

unfoldable pub workdir_lines : String → ℕ → List String → Translated
workdir_lines user i [] = err (bad_step i "WORKDIR requires an arg")
workdir_lines user i (dir ∷ rest) = ok (workdir_line dir ∷ [], user)

unfoldable pub user_lines : ℕ → List String → Translated
user_lines i [] = err (bad_step i "USER requires an arg")
user_lines i (user ∷ rest) = ok (user_line user ∷ [], user)

unfoldable pub env_lines : String → ℕ → List String → Translated
env_lines user i [] = ok ([], user)
env_lines user i (k ∷ more) =
    if is_even_length (k ∷ more)
    then ok (env_line (quote_pairs (k ∷ more)) ∷ [], user)
    else err (bad_step i "ENV args must be key/value pairs (even count)")

-- The `switch step.Type`.
unfoldable pub step_lines : String → String → ℕ → Step → Translated
step_lines staging user i s =
    if s.kind == "FROM"
    then err (bad_step i "FROM is implicit, not a valid step type")
    else if s.kind == "RUN"
    then run_lines user i s.args
    else if s.kind == "COPY"
    then copy_lines staging user i s.files_hash s.args
    else if s.kind == "WORKDIR"
    then workdir_lines user i s.args
    else if s.kind == "USER"
    then user_lines i s.args
    else if s.kind == "ENV"
    then env_lines user i s.args
    else err (bad_step i "unsupported step type")

abbrev is_in : String → List String → Bool
is_in h [] = false
is_in h (g ∷ gs) = if g == h then true else is_in h gs

unfoldable pub hashes_after : Step → List String → List String
hashes_after s seen =
    if s.kind == "COPY" && not (is_in s.files_hash seen) then seen ++ (s.files_hash ∷ []) else seen

abbrev pub opening : String → List Line
opening base =
    from_line base
    ∷ run_line (
        "id -u user >/dev/null 2>&1 || (useradd -m -s /bin/bash user && "
        +++ ("echo 'user ALL=(ALL:ALL) NOPASSWD:ALL' >> /etc/sudoers && "
            +++ "chmod 755 /home/user)"))
    ∷ []

-- The tail that puts the agent into the image.
abbrev pub envd_tail : List Line
envd_tail =
    user_line "root"
    ∷ run_line "chown -R user:user /home/user 2>/dev/null || true"
    ∷ copy_line (" --from=" +++ envd_source_image) "/usr/local/bin/envd" "/usr/local/bin/envd"
    ∷ copy_line (" --from=" +++ envd_source_image) "/usr/local/bin/edvabe-init"
        default_envd_init_path
    ∷ cmd_line default_envd_init_path
    ∷ []

module _ (bust : ℕ → Result String String) where
  unfoldable pub bust_lines : ℕ → Step → Result TranslateError (List Line)
  bust_lines i s =
      if s.force
      then elim (bust i) [ err e ↦ err (no_random e) | ok r ↦ ok (arg_line i r ∷ []) ]
      else ok []

  -- The loop over the steps: the lines, and the hashes that they need, each once.
  unfoldable pub translate_steps :
      String
      → String
      → List String
      → ℕ
      → List Step
      → Result TranslateError (List Line × List String)
  translate_steps staging user seen i [] = ok ([], seen)
  translate_steps staging user seen i (s ∷ rest) = elim (bust_lines i s) [
    | err e ↦ err e
    | ok pre ↦ elim (step_lines staging user i s) [
      | err e ↦ err e
      | ok (lines, user') ↦
          elim (translate_steps staging user' (hashes_after s seen) (suc i) rest) [
            | err e ↦ err e
            | ok (more, hashes) ↦ ok (pre ++ (lines ++ more), hashes)
          ]
    ]
  ]

  -- What is written, in its order.
  unfoldable pub instructions : Input → Result TranslateError (List Line × List String)
  instructions input =
      let staging = if input.staging_dir == "" then "ctx" else input.staging_dir in
      let base = if input.from_image == "" then input.from_template_image else input.from_image in
      if input.from_image == "" && input.from_template_image == ""
      then err no_base
      else if not (input.from_image == "") && not (input.from_template_image == "")
      then err two_bases
      else elim (translate_steps staging "root" [] 0 input.steps) [
        | err e ↦ err e
        | ok (lines, hashes) ↦ ok (opening base ++ (lines ++ envd_tail), hashes)
      ]

abbrev pub words : List String → String
words [] = ""
words (w ∷ ws) = " " +++ w +++ words ws

-- The text of a line, and of a Dockerfile.
unfoldable pub render : (ℕ → String) → Line → String
render decimal (from_line base) = "FROM " +++ base
render decimal (run_line cmd) = "RUN " +++ cmd
render decimal (user_line user) = "USER " +++ user
render decimal (workdir_line dir) = "WORKDIR " +++ dir
render decimal (cmd_line path) = "CMD [\"" +++ (path +++ "\"]")
render decimal (copy_line flags src dest) =
    "COPY" +++ (flags +++ (" " +++ (src +++ (" " +++ dest))))
render decimal (env_line pairs) = "ENV" +++ words pairs
render decimal (arg_line i r) = "ARG EDVABE_CACHE_BUST_" +++ (decimal i +++ ("=" +++ r))

unfoldable pub dockerfile : (ℕ → String) → List Line → String
dockerfile decimal [] = ""
dockerfile decimal (l ∷ ls) = render decimal l +++ ("\n" +++ dockerfile decimal ls)

-- The text of the Dockerfile, and the hashes of the files that it needs.
unfoldable pub translate :
    (ℕ → String) → (ℕ → Result String String) → Input → Result TranslateError (String × List String)
translate decimal bust input = elim (instructions bust input) [
  | err e ↦ err e
  | ok (lines, hashes) ↦ ok (dockerfile decimal lines, hashes)
]
