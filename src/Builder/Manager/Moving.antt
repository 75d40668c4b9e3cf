-- ===== src/Builder/Manager/Moving.antt =====
-- What each move of a build goroutine does to the build: its status stays the one of where the
-- goroutine stands, and its ring of lines grows by what the move says.
use edvabe.Prelude.{
  ◌≡◌, refl, sym, ap, subst, ◌⊎◌, inl, inr, true, false, Option, none, some, List, [], ◌∷◌, ◌++◌,
  ◌≢◌,
}
use edvabe.Template.{BuildStatus}
use edvabe.Builder.RingBuffer.{LogEntry}
use edvabe.Builder.RingBuffer.History.{Represents}
use edvabe.Builder.RingBuffer.Appends.{append-Represents}
use edvabe.Builder.Manager.{
  RunningBuild, Phase, spawned, announced, executing, returned, ended, Move, announces, closes,
  opens_log, emits, returns, go, finish, set_status, log_line,
}
use edvabe.Builder.Manager.History.{said}

-- A build whose outcome is known.
abbrev pub IsOver : RunningBuild → Type 0
IsOver b = ((b.status ≡ BuildStatus.ready) × (b.reason ≡ "")) ⊎ (b.status ≡ BuildStatus.error)

abbrev pub Agrees : Phase → RunningBuild → Type 0
Agrees (spawned req) b =
    (b.status ≡ BuildStatus.waiting)
    × (b.reason ≡ "")
    × (b.finished_at ≡ none)
    × (b.done ≡ false)
    × (req.template_id ≡ b.template_id)
Agrees (announced req) b =
    (b.status ≡ BuildStatus.building)
    × (b.reason ≡ "")
    × (b.finished_at ≡ none)
    × (b.done ≡ false)
    × (req.template_id ≡ b.template_id)
Agrees (executing spec) b =
    (b.status ≡ BuildStatus.building) × (b.reason ≡ "") × (b.finished_at ≡ none) × (b.done ≡ false)
Agrees returned b = IsOver b × (b.finished_at ≢ none) × (b.done ≡ false)
Agrees ended b = IsOver b × (b.finished_at ≢ none) × (b.done ≡ true)

-- What a move leaves as it is, and what it adds to the log.
pub record Moved (move : Move) (phase : Phase) (b b' : RunningBuild) : Type 0 where
  pub same_id : b'.build_id ≡ b.build_id
  pub same_template : b'.template_id ≡ b.template_id
  pub same_tag : b'.result_tag ≡ b.result_tag
  pub staged : Agrees phase b'
  pub logged :
      (log : List LogEntry)
      → Represents b.logs log
      → Represents b'.logs (log ++ said b.template_id b.result_tag move)

pub append_end : {A : Type 0} (xs : List A) → xs ++ [] ≡ xs
append_end [] = refl
append_end (x ∷ xs) = ap (◌∷◌ x) (append_end xs)

-- The same of what `go` gives, when it gives something.
abbrev pub Fits : Move → RunningBuild → Option (Phase × RunningBuild) → Type 0
Fits move b none = Unit
Fits move b (some (phase, b')) = Moved move phase b b'

log_line-Represents :
    (entry : LogEntry) (b : RunningBuild) (log : List LogEntry)
    → Represents b.logs log
    → Represents (log_line entry b).logs (log ++ (entry ∷ []))
unfolding log_line
log_line-Represents entry b log v = (append-Represents b.logs log entry v).0

pub go-Fits :
    (move : Move) (phase : Phase) (b : RunningBuild)
    → Agrees phase b
    → Fits move b (go move phase b)
unfolding go set_status finish log_line
go-Fits announces (spawned req) b v = record {
  same_id = refl;
  same_template = refl;
  same_tag = refl;
  staged = (refl, refl, v.2, v.3, v.4);
  logged = λ log r. subst (Represents b.logs) (sym (append_end log)) r;
}
go-Fits (opens_log now) (announced req) b v = record {
  same_id = refl;
  same_template = refl;
  same_tag = refl;
  staged = (v.0, v.1, v.2, v.3);
  logged = λ log r. rw (v.4) (log_line-Represents _ b log r);
}
go-Fits (emits entry now) (executing spec) b v = record {
  same_id = refl;
  same_template = refl;
  same_tag = refl;
  staged = v;
  logged = λ log r. log_line-Represents _ b log r;
}
go-Fits (returns none now) (executing spec) b v = record {
  same_id = refl;
  same_template = refl;
  same_tag = refl;
  staged = (inl (refl, v.1), (λ e. cc), v.3);
  logged = λ log r. log_line-Represents _ b log r;
}
go-Fits (returns (some e) now) (executing spec) b v = record {
  same_id = refl;
  same_template = refl;
  same_tag = refl;
  staged = (inr refl, (λ e. cc), v.3);
  logged = λ log r. log_line-Represents _ b log r;
}
go-Fits closes returned b v = record {
  same_id = refl;
  same_template = refl;
  same_tag = refl;
  staged = (v.0, v.1, refl);
  logged = λ log r. subst (Represents b.logs) (sym (append_end log)) r;
}
go-Fits _ _ b v = tt
