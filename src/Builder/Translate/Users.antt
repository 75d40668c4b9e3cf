-- ===== src/Builder/Translate/Users.antt =====
-- Which user each command of a build runs as.
use edvabe.Prelude.{
  ℕ, suc, String, ◌≡◌, refl, sym, subst, ap, ◌+++◌, true, false, ◌==◌, eq_iff, if◌then◌else◌, List,
  [], ◌∷◌, ◌++◌, All, ◌∙◌, arith, inl, inr,
}
use edvabe.Prelude.Result.{Result, ok, Result-cases}
use edvabe.Text.Split.{split_all}
use edvabe.Builder.Translate.Lines.{docker_runs, ran_as, IsOneLine, dockerfile-ran_as}
use edvabe.Builder.Translate.{
  Step, Line, run_line, user_line, step_lines, run_lines, copy_lines, workdir_lines, user_lines,
  env_lines, bust_lines, translate_steps, hashes_after, translate, instructions, dockerfile, Input,
  copy_line, cmd_line, envd_source_image, default_envd_init_path,
}

-- The commands before and behind those of the steps.
abbrev pub make_account : String
make_account =
    "id -u user >/dev/null 2>&1 || (useradd -m -s /bin/bash user && "
    +++ ("echo 'user ALL=(ALL:ALL) NOPASSWD:ALL' >> /etc/sudoers && " +++ "chmod 755 /home/user)")

abbrev pub hand_over_home : String
hand_over_home = "chown -R user:user /home/user 2>/dev/null || true"

-- The user that a RUN step names, or else the one in force.
abbrev pub named_or : String → List String → String
named_or user (cmd ∷ other ∷ rest) = if other == "" then user else other
named_or user _ = user

abbrev pub first_or : String → List String → String
first_or default' [] = default'
first_or default' (a ∷ rest) = a

-- The commands that a step asks for, and the user that it leaves in force.
abbrev pub runs_of : String → Step → List (String × String)
runs_of user s = if s.kind == "RUN" then (named_or user s.args, first_or "" s.args) ∷ [] else []

abbrev pub user_after : String → Step → String
user_after user s = if s.kind == "USER" then first_or user s.args else user

abbrev pub asked_runs : String → List Step → List (String × String)
asked_runs user [] = []
asked_runs user (s ∷ rest) = runs_of user s ++ asked_runs (user_after user s) rest

run_lines-ran_as :
    (user : String) (i : ℕ) (args : List String) (ls more : List Line) (user' : String)
    → run_lines user i args ≡ ok (ls, user')
    → (ran_as user (ls ++ more) ≡ (named_or user args, first_or "" args) ∷ ran_as user' more)
      × (user' ≡ user)
unfolding run_lines
run_lines-ran_as user i [] ls more user' e = absurd (cc e)
run_lines-ran_as user i (cmd ∷ []) ls more user' e = ground (arith, e)
run_lines-ran_as user i (cmd ∷ other ∷ rest) ls more user' e = ground (arith, e, eq_iff other user)

copy_lines-ran_as :
    (staging user : String) (i : ℕ) (hash : String) (args : List String) (ls more : List Line)
    (user' : String)
    → copy_lines staging user i hash args ≡ ok (ls, user')
    → (ran_as user (ls ++ more) ≡ ran_as user' more) × (user' ≡ user)
unfolding copy_lines
copy_lines-ran_as staging user i hash [] ls more user' e = absurd (cc e)
copy_lines-ran_as staging user i hash (src ∷ []) ls more user' e = absurd (cc e)
copy_lines-ran_as staging user i hash (src ∷ dest ∷ rest) ls more user' e = ground (arith, e)

workdir_lines-ran_as :
    (user : String) (i : ℕ) (args : List String) (ls more : List Line) (user' : String)
    → workdir_lines user i args ≡ ok (ls, user')
    → (ran_as user (ls ++ more) ≡ ran_as user' more) × (user' ≡ user)
unfolding workdir_lines
workdir_lines-ran_as user i [] ls more user' e = absurd (cc e)
workdir_lines-ran_as user i (dir ∷ rest) ls more user' e = ground (arith, e)

user_lines-ran_as :
    (user : String) (i : ℕ) (args : List String) (ls more : List Line) (user' : String)
    → user_lines i args ≡ ok (ls, user')
    → (ran_as user (ls ++ more) ≡ ran_as user' more) × (user' ≡ first_or user args)
unfolding user_lines
user_lines-ran_as user i [] ls more user' e = absurd (cc e)
user_lines-ran_as user i (u ∷ rest) ls more user' e = ground (arith, e)

env_lines-ran_as :
    (user : String) (i : ℕ) (args : List String) (ls more : List Line) (user' : String)
    → env_lines user i args ≡ ok (ls, user')
    → (ran_as user (ls ++ more) ≡ ran_as user' more) × (user' ≡ user)
unfolding env_lines
env_lines-ran_as user i [] ls more user' e = ground (arith, e)
env_lines-ran_as user i (k ∷ rest) ls more user' e = ground (arith, e)

-- Once the user is set to root it does not matter who was in force.
ran_as-append_root :
    (user : String) (ls more : List Line)
    → ran_as user (ls ++ (user_line "root" ∷ more)) ≡ ran_as user ls ++ ran_as "root" more
ran_as-append_root user [] more = refl
ran_as-append_root user (run_line cmd ∷ ls) more =
    ap (◌∷◌ (user, cmd)) (ran_as-append_root user ls more)
ran_as-append_root user (user_line other ∷ ls) more = ran_as-append_root other ls more
ran_as-append_root user (Line.from_line b ∷ ls) more = ran_as-append_root user ls more
ran_as-append_root user (Line.workdir_line b ∷ ls) more = ran_as-append_root user ls more
ran_as-append_root user (Line.cmd_line b ∷ ls) more = ran_as-append_root user ls more
ran_as-append_root user (Line.copy_line f a b ∷ ls) more = ran_as-append_root user ls more
ran_as-append_root user (Line.env_line b ∷ ls) more = ran_as-append_root user ls more
ran_as-append_root user (Line.arg_line i b ∷ ls) more = ran_as-append_root user ls more

run_not_user : (kind : String) → (kind == "RUN") ≡ true → (kind == "USER") ≡ false
run_not_user kind e = subst (λ k. (k == "USER") ≡ false) (sym ((eq_iff kind "RUN").0 e)) refl

copy_not_user : (kind : String) → (kind == "COPY") ≡ true → (kind == "USER") ≡ false
copy_not_user kind e = subst (λ k. (k == "USER") ≡ false) (sym ((eq_iff kind "COPY").0 e)) refl

workdir_not_user : (kind : String) → (kind == "WORKDIR") ≡ true → (kind == "USER") ≡ false
workdir_not_user kind e =
    subst (λ k. (k == "USER") ≡ false) (sym ((eq_iff kind "WORKDIR").0 e)) refl

step_lines-ran_as :
    (staging user : String) (i : ℕ) (s : Step) (ls more : List Line) (user' : String)
    → step_lines staging user i s ≡ ok (ls, user')
    → (ran_as user (ls ++ more) ≡ runs_of user s ++ ran_as user' more) × (user' ≡ user_after user s)
unfolding step_lines
step_lines-ran_as staging user i s ls more user' e = ground (
  arith,
  e,
  run_not_user s.kind,
  copy_not_user s.kind,
  workdir_not_user s.kind,
  run_lines-ran_as user i s.args ls more user',
  copy_lines-ran_as staging user i s.files_hash s.args ls more user',
  workdir_lines-ran_as user i s.args ls more user',
  user_lines-ran_as user i s.args ls more user',
  env_lines-ran_as user i s.args ls more user',
)

module _ (bust : ℕ → Result String String) where
  bust_lines-ran_as :
      (user : String) (i : ℕ) (s : Step) (pre more : List Line)
      → bust_lines bust i s ≡ ok pre
      → ran_as user (pre ++ more) ≡ ran_as user more
  unfolding bust_lines
  bust_lines-ran_as user i s pre more e = ground (arith, e)

  translate_steps-ran_as :
      (staging user : String) (seen : List String) (i : ℕ) (steps : List Step) (ls : List Line)
      (hashes : List String)
      → translate_steps bust staging user seen i steps ≡ ok (ls, hashes)
      → ran_as user ls ≡ asked_runs user steps
  unfolding translate_steps
  translate_steps-ran_as staging user seen i [] ls hashes e = ground (arith, e)
  translate_steps-ran_as staging user seen i (s ∷ rest) ls hashes e =
      elim (Result-cases (bust_lines bust i s)) [
        | inr (f, bad) ↦ absurd (ground (arith, e, bad))
        | inl (pre, busted) ↦ elim (Result-cases (step_lines staging user i s)) [
          | inr (f, bad) ↦ absurd (ground (arith, e, busted, bad))
          | inl ((here, user'), stepped) ↦
              elim (Result-cases
                (translate_steps bust staging user' (hashes_after s seen) (suc i) rest)) [
                  | inr (f, bad) ↦ absurd (ground (arith, e, busted, stepped, bad))
                  | inl ((more, hs), done) ↦ ground (
                    arith,
                    e,
                    busted,
                    stepped,
                    done,
                    bust_lines-ran_as user i s pre (here ++ more) busted,
                    step_lines-ran_as staging user i s here more user' stepped,
                    translate_steps-ran_as staging user' (hashes_after s seen) (suc i) rest more hs
                        done,
                  )
                ]
        ]
      ]

  instructions-ran_as :
      (input : Input) (ls : List Line) (hashes : List String)
      → instructions bust input ≡ ok (ls, hashes)
      → ran_as "root" ls
        ≡ ("root", make_account)
          ∷ (asked_runs "root" input.steps ++ (("root", hand_over_home) ∷ []))
  unfolding instructions
  instructions-ran_as input ls hashes e =
      let staging = if input.staging_dir == "" then "ctx" else input.staging_dir in
      elim (Result-cases (translate_steps bust staging "root" [] 0 input.steps)) [
        | inr (f, bad) ↦ absurd (ground (arith, e, bad))
        | inl ((lines, hs), done) ↦ ground (
          arith,
          e,
          done,
          translate_steps-ran_as staging "root" [] 0 input.steps lines hs done,
          ran_as-append_root "root" lines (
              run_line hand_over_home
              ∷ copy_line (" --from=" +++ envd_source_image) "/usr/local/bin/envd"
                  "/usr/local/bin/envd"
              ∷ copy_line (" --from=" +++ envd_source_image) "/usr/local/bin/edvabe-init"
                  default_envd_init_path
              ∷ cmd_line default_envd_init_path
              ∷ []),
        )
      ]

  -- Docker runs, for the text that `Translate` returns, first the command that makes the account,
  -- then exactly the commands of the RUN steps in their order, each as the user that the step names or
  -- else as that of the last USER step before it (root at first), and last the command that hands over
  -- the home directory: a switch of user for one command never outlasts it. The text is read line by
  -- line, from a base image that leaves the user at root and without continued lines or
  -- here-documents, and no instruction that was written may have a line break inside.
  pub translate-ran_as :
      (decimal : ℕ → String) (input : Input) (ls : List Line) (text : String) (hashes : List String)
      → instructions bust input ≡ ok (ls, hashes)
      → All (IsOneLine decimal) ls
      → translate decimal bust input ≡ ok (text, hashes)
      → docker_runs "root" (split_all "\n" text)
        ≡ ("root", make_account)
          ∷ (asked_runs "root" input.steps ++ (("root", hand_over_home) ∷ []))
  unfolding translate
  translate-ran_as decimal input ls text hashes written plain e =
      ap (λ t. docker_runs "root" (split_all "\n" t)) (sym same)
      ∙ dockerfile-ran_as decimal "root" ls plain
      ∙ instructions-ran_as input ls hashes written
    where
      same : dockerfile decimal ls ≡ text
      same = ground (arith, written, e)
