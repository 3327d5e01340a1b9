-- ===== src/Reconcile/Review.antt =====
-- The gate of `handlePodSucceeded` of devtask_controller.go: the diff policy decides, on all the files
-- of the pull request and on the body of the issue, whether it goes to review or is closed.
use agentic_dev_pipeline.Prelude.{
  Bool, List, Option, [], ap, false, none, refl, some, suc, true, zero, ℕ, ◌++◌, ◌∷◌, ◌≡◌,
}
use agentic_dev_pipeline.Text.{Text, codes}
use agentic_dev_pipeline.Api.{DevTask, DevTaskPhase, awaiting_review}
use agentic_dev_pipeline.Effects.{
  Call, Host, Prog, Reply, RepoClient, Result, attempt, edit_pull, err, get_issue, list_files, ok,
  update_status, ◌>>=◌,
}
use agentic_dev_pipeline.Effects.Kinds.{IsCredential, IsCredential→IsLookup, IsLookup}
use agentic_dev_pipeline.Effects.Monitor.{Monitor, Neutral, Safe}
use agentic_dev_pipeline.Diff.Evaluate.{CommitFile, DiffViolation, evaluate_diff}
use agentic_dev_pipeline.Diff.Policy.{load_diff_policy}
use agentic_dev_pipeline.Github.{get_issue_body, list_pages, list_pr_files}
use agentic_dev_pipeline.Github.Clients.{InRepo, with_client-Safe}

-- What a pass has read of the pull request: its number, the files of the pages in a row from the
-- first, whether the last of them was the last page, and the page announced behind it; and the body
-- of the issue.
pub record Seen : Type 0 where
  pub number : ℕ
  pub files : List CommitFile
  pub complete : Bool
  pub following : ℕ
  pub body : Option Text

abbrev pub nothing_seen : Seen
nothing_seen = record { number = 0; files = []; complete = false; following = 0; body = none }

-- The first page starts the list afresh.
abbrev pub files_before : Seen → ℕ → List CommitFile
files_before s zero = []
files_before s (suc page) = s.files

abbrev pub is_last : ℕ → Bool
is_last zero = true
is_last (suc page) = false

abbrev pub next_seen : Seen → (c : Call) → Reply c → Seen
next_seen s (list_files c n page) (ok (files, following)) = record s {
  number = n;
  files = files_before s page ++ files;
  complete = is_last following;
  following = following;
}
next_seen s (list_files c n page) (err e) = record s { complete = false }
next_seen s (get_issue c n) (ok issue) = record s { body = some issue.body }
next_seen s (get_issue c n) (err e) = s
next_seen s _ r = s

-- The policy was evaluated on all files of the pull request `n` and on the issue's body, with that
-- result.
pub record Evaluated (host : Host) (s : Seen) (n : ℕ) (verdict : List DiffViolation) : Type 0 where
  pub of_number : s.number ≡ n
  pub all_files : s.complete ≡ true
  pub issue_body : Text
  pub body_read : s.body ≡ some issue_body
  pub result :
      evaluate_diff host.quote host.lower s.files issue_body (load_diff_policy host.getenv)
      ≡ some verdict

abbrev pub PhaseGuard : Host → Seen → ℕ → DevTaskPhase → Type 0
PhaseGuard host s n awaiting_review = Evaluated host s n []
PhaseGuard host s n _ = Unit

-- A listing begins at the first page, or goes on at the page that was announced.
abbrev pub PageGuard : Seen → ℕ → ℕ → Type 0
PageGuard s n zero = Unit
PageGuard s n (suc page) = (s.number ≡ n) × (s.following ≡ suc page)

-- A task goes to review only with a clean verdict on its pull request, and a pull request is closed
-- only with a violation; the files, the closing and the body are those of the task's repository, the
-- body that of the task's issue.
abbrev pub GateGuard : Host → DevTask → Seen → Call → Type 0
GateGuard host task s (update_status new) = PhaseGuard host s new.status.pr_number new.status.phase
GateGuard host task s (edit_pull c n state) =
    InRepo task c
    × (state ≡ codes "closed")
    × (v : DiffViolation) × (vs : List DiffViolation) × Evaluated host s n (v ∷ vs)
GateGuard host task s (list_files c n page) = InRepo task c × PageGuard s n page
GateGuard host task s (get_issue c n) = InRepo task c × (n ≡ task.spec.issue_number)
GateGuard host task s _ = Unit

abbrev pub diff_gate : Host → DevTask → Monitor Seen
diff_gate host task = record { guard = GateGuard host task; next = next_seen }

module _ (host : Host) (task : DevTask) where
  abbrev pub Gated : {A : Type 0} → (Seen → A → Type 0) → Seen → Prog A → Type 0
  Gated = Safe (diff_gate host task)

  pub read_kind : (s : Seen) (c : Call) → IsLookup c → Neutral (diff_gate host task) s c
  read_kind s (update_status t) h = absurd h
  read_kind s (edit_pull c n state) h = absurd h
  read_kind s (list_files c n page) h = absurd h
  read_kind s (get_issue c n) h = absurd h
  read_kind s _ h = (tt, λ r. refl)

  pub credential_kind : (s : Seen) (c : Call) → IsCredential c → Neutral (diff_gate host task) s c
  credential_kind s c h = read_kind s c (IsCredential→IsLookup c h)

  abbrev pub Listed : ℕ → Seen → Result (List CommitFile) → Type 0
  Listed n s (ok files) = (s.files ≡ files) × (s.complete ≡ true) × (s.number ≡ n)
  Listed n s (err e) = Unit

  pub list_pages-Listed :
      (rounds : ℕ) (client : RepoClient) (n : ℕ) (all : List CommitFile) (page : ℕ) (s : Seen)
      → InRepo task client
      → files_before s page ≡ all
      → PageGuard s n page
      → Gated (Listed n) s (list_pages rounds client n all page)
  unfolding list_pages ◌>>=◌
  list_pages-Listed zero client n all page s own e g = tt
  list_pages-Listed (suc rounds) client n all page s own e g = (
    (own, g),
    elim [
      | err x ↦ tt
      | ok (files, zero) ↦ (ap (λ fs. fs ++ files) e, refl, refl)
      | ok (files, suc k) ↦
          list_pages-Listed rounds client n (all ++ files) (suc k) _ own (ap (λ fs. fs ++ files) e)
            (refl, refl)
    ],
  )

  pub list_pr_files-Listed : (n : ℕ) (s : Seen) → Gated (Listed n) s (list_pr_files host task n)
  unfolding list_pr_files
  list_pr_files-Listed n s =
      with_client-Safe (diff_gate host task) (Listed n) s (credential_kind s) task _ (λ e. tt)
        λ client own. list_pages-Listed host.max_pages client n [] 0 s own refl tt

  -- Reading the body of the issue leaves the files.
  abbrev pub BodyRead : Seen → Seen → Result Text → Type 0
  BodyRead s t (ok b) = t ≡ record s { body = some b }
  BodyRead s t (err e) = Unit

  pub get_issue_body-BodyRead : (s : Seen) → Gated (BodyRead s) s (get_issue_body task)
  unfolding get_issue_body attempt ◌>>=◌
  get_issue_body-BodyRead s =
      with_client-Safe (diff_gate host task) (BodyRead s) s (credential_kind s) task _ (λ e. tt)
        λ client own. ((own, refl), elim [ err e ↦ tt | ok issue ↦ refl ])
