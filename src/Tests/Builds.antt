-- ===== src/Tests/Builds.antt =====
-- A build of three steps, the second of which runs as another user.
use edvabe.Prelude.{ℕ, String, ◌≡◌, refl, List, [], ◌∷◌, ◌++◌, All, arith, false}
use edvabe.Prelude.Result.{Result, ok, err}
use edvabe.Builder.Translate.{
  Step, Input, Line, translate, instructions, dockerfile, render, translate_steps, bust_lines,
  step_lines, run_lines, user_lines, hashes_after, opening, envd_tail, run_line, user_line,
}
use edvabe.Text.Split.{contains, split_all}
use edvabe.Builder.Translate.Lines.{docker_runs, IsOneLine}
use edvabe.Builder.Translate.Users.{asked_runs, make_account, hand_over_home, translate-ran_as}

abbrev no_bust : ℕ → Result String String
no_bust i = err "no entropy"

abbrev build_step : String → List String → Step
build_step kind args = record { kind = kind; args = args; files_hash = ""; force = false }

abbrev input : Input
input = record {
  from_image = "debian";
  from_template_image = "";
  steps =
      build_step "USER" ("user" ∷ [])
      ∷ build_step "RUN" ("apt-get update" ∷ "root" ∷ [])
      ∷ build_step "RUN" ("make" ∷ [])
      ∷ [];
  staging_dir = "";
}

abbrev lines : List Line
lines =
    opening "debian"
    ++ ((user_line "user"
          ∷ user_line "root"
          ∷ run_line "apt-get update"
          ∷ user_line "user"
          ∷ run_line "make"
          ∷ [])
        ++ envd_tail)

written : instructions no_bust input ≡ ok (lines, [])
unfolding instructions translate_steps bust_lines step_lines run_lines user_lines hashes_after
written = refl

abbrev no_digits : ℕ → String
no_digits i = ""

abbrev text : String
text = dockerfile no_digits lines

translated : translate no_digits no_bust input ≡ ok (text, [])
unfolding translate
translated = ground (arith, written)

input_plain : All (IsOneLine no_digits) lines
unfolding contains render
input_plain = (
  refl,
  (refl, (refl, (refl, (refl, (refl, (refl, (refl, (refl, (refl, (refl, (refl, tt))))))))))),
)

translate-ran_as_example :
    docker_runs "root" (split_all "\n" text)
    ≡ ("root", make_account) ∷ (asked_runs "root" input.steps ++ (("root", hand_over_home) ∷ []))
translate-ran_as_example =
    translate-ran_as no_bust no_digits input lines text [] written input_plain translated

the_steps : asked_runs "root" input.steps ≡ ("root", "apt-get update") ∷ ("user", "make") ∷ []
the_steps = refl
