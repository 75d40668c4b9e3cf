-- ===== src/Builder/Translate/Lines.antt =====
-- The text of a Dockerfile read back, line by line.
use Prim.Native.Char.{Char}
use Prim.Native.String.{String}
use text.Mathlib.TextLemmas.{cons-append, nil-append}
use edvabe.Prelude.{ℕ, ◌≡◌, refl, ap, ◌∙◌, ◌+++◌, false, none, some, List, [], ◌∷◌, ◌++◌, map, All}
use edvabe.Text.{char_eq, strip_prefix}
use edvabe.Text.Split.{contains, split_all, split_all-append}
use edvabe.Text.Affixes.{strip_prefix-append, strip_prefix-other}
use edvabe.Builder.Translate.{
  Line, from_line, run_line, user_line, workdir_line, cmd_line, copy_line, env_line, arg_line,
  render, dockerfile, words,
}

-- The commands that Docker runs for the lines of a Dockerfile, each with the user that is in force,
-- for files without continued lines and here-documents.
abbrev pub docker_runs : String → List String → List (String × String)
docker_runs user [] = []
docker_runs user (l ∷ ls) = elim (strip_prefix "RUN " l) [
  | some cmd ↦ (user, cmd) ∷ docker_runs user ls
  | none ↦ elim (strip_prefix "USER " l) [
    | some other ↦ docker_runs other ls
    | none ↦ docker_runs user ls
  ]
]

-- The same of instructions.
abbrev pub ran_as : String → List Line → List (String × String)
ran_as user [] = []
ran_as user (run_line cmd ∷ ls) = (user, cmd) ∷ ran_as user ls
ran_as user (user_line other ∷ ls) = ran_as other ls
ran_as user (_ ∷ ls) = ran_as user ls

-- An instruction whose text is one line.
abbrev pub IsOneLine : (ℕ → String) → Line → Type 0
IsOneLine decimal l = contains "\n" (render decimal l) ≡ false

-- The lines of the text, with the empty one behind the last line break.
abbrev text_lines : (ℕ → String) → List Line → List String
text_lines decimal ls = map (render decimal) ls ++ ("" ∷ [])

-- Each instruction is a line of the text, in the same order.
split_all-dockerfile :
    (decimal : ℕ → String) (ls : List Line)
    → All (IsOneLine decimal) ls
    → split_all "\n" (dockerfile decimal ls) ≡ text_lines decimal ls
unfolding dockerfile split_all
split_all-dockerfile decimal [] plain = refl
split_all-dockerfile decimal (l ∷ ls) (one, plain) =
    ap (λ x. split_all "\n" (render decimal l +++ x))
      (cons-append "\n" "" (dockerfile decimal ls)
        ∙ ap (String.◌∷◌ "\n") (nil-append (dockerfile decimal ls)))
    ∙ split_all-append "\n" (render decimal l) (dockerfile decimal ls) one
    ∙ ap (◌∷◌ (render decimal l)) (split_all-dockerfile decimal ls plain)

docker_runs-run :
    (user l cmd : String) (ls : List String)
    → strip_prefix "RUN " l ≡ some cmd
    → docker_runs user (l ∷ ls) ≡ (user, cmd) ∷ docker_runs user ls
docker_runs-run user l cmd ls run = rw (docker_runs, run) refl

docker_runs-user :
    (user l other : String) (ls : List String)
    → strip_prefix "RUN " l ≡ none
    → strip_prefix "USER " l ≡ some other
    → docker_runs user (l ∷ ls) ≡ docker_runs other ls
docker_runs-user user l other ls no_run switch = rw (docker_runs, no_run, switch) refl

-- A line that begins with another character than R or U.
docker_runs-other :
    (d : Char) (q s user : String) (ls : List String)
    → char_eq "R" d ≡ false
    → char_eq "U" d ≡ false
    → docker_runs user ((String.◌∷◌ d q +++ s) ∷ ls) ≡ docker_runs user ls
docker_runs-other d q s user ls no_run no_user =
    rw
      (
        docker_runs,
        strip_prefix-other "R" d "UN " q s no_run,
        strip_prefix-other "U" d "SER " q s no_user,
      )
      refl

ran_as-render :
    (decimal : ℕ → String) (user : String) (ls : List Line)
    → docker_runs user (text_lines decimal ls) ≡ ran_as user ls
unfolding render strip_prefix
ran_as-render decimal user [] = refl
ran_as-render decimal user (run_line cmd ∷ ls) =
    docker_runs-run user ("RUN " +++ cmd) cmd (text_lines decimal ls)
      (strip_prefix-append "RUN " cmd)
    ∙ ap (◌∷◌ (user, cmd)) (ran_as-render decimal user ls)
ran_as-render decimal user (user_line other ∷ ls) =
    docker_runs-user user ("USER " +++ other) other (text_lines decimal ls)
      (strip_prefix-other "R" "U" "UN " "SER " other refl) (strip_prefix-append "USER " other)
    ∙ ran_as-render decimal other ls
ran_as-render decimal user (from_line b ∷ ls) =
    docker_runs-other "F" "ROM " b user (text_lines decimal ls) refl refl
    ∙ ran_as-render decimal user ls
ran_as-render decimal user (workdir_line dir ∷ ls) =
    docker_runs-other "W" "ORKDIR " dir user (text_lines decimal ls) refl refl
    ∙ ran_as-render decimal user ls
ran_as-render decimal user (cmd_line path ∷ ls) =
    docker_runs-other "C" "MD [\"" (path +++ "\"]") user (text_lines decimal ls) refl refl
    ∙ ran_as-render decimal user ls
ran_as-render decimal user (copy_line flags src dest ∷ ls) =
    docker_runs-other "C" "OPY" (flags +++ (" " +++ (src +++ (" " +++ dest)))) user
      (text_lines decimal ls) refl refl
    ∙ ran_as-render decimal user ls
ran_as-render decimal user (env_line pairs ∷ ls) =
    docker_runs-other "E" "NV" (words pairs) user (text_lines decimal ls) refl refl
    ∙ ran_as-render decimal user ls
ran_as-render decimal user (arg_line i r ∷ ls) =
    docker_runs-other "A" "RG EDVABE_CACHE_BUST_" (decimal i +++ ("=" +++ r)) user
      (text_lines decimal ls) refl refl
    ∙ ran_as-render decimal user ls

-- What Docker runs for a text whose instructions stand on a line each.
pub dockerfile-ran_as :
    (decimal : ℕ → String) (user : String) (ls : List Line)
    → All (IsOneLine decimal) ls
    → docker_runs user (split_all "\n" (dockerfile decimal ls)) ≡ ran_as user ls
dockerfile-ran_as decimal user ls plain =
    ap (docker_runs user) (split_all-dockerfile decimal ls plain) ∙ ran_as-render decimal user ls
