-- ===== src/Poller/Cap.antt =====
-- The cap of github_poller.go on the active tasks, over all replies of the services.
use agentic_dev_pipeline.Prelude.{
  Bool-cases, List, Option, [], ap, append_assoc, ap₂, false, inl, inr, ltb, ltb→lt, none, refl,
  some, subst, sym, true, ℕ, ◌++◌, ◌∙◌, ◌∷◌, ◌≡◌,
}
use agentic_dev_pipeline.Text.{Text}
use agentic_dev_pipeline.Text.Search.{split2}
use agentic_dev_pipeline.Text.Separators.{Joined, split2-Joined}
use agentic_dev_pipeline.Kube.{Issue}
use agentic_dev_pipeline.Effects.{
  Host, LoopEvent, Prog, Result, attempt, cancelled, err, ok, tick, ◌>>=◌,
}
use agentic_dev_pipeline.Effects.Kinds.{IsCredential}
use agentic_dev_pipeline.Effects.Monitor.{Calls-mono, Neutral, Safe, Safe-attempt, Safe-bind}
use agentic_dev_pipeline.Github.Reads.{read_pipeline_credentials-IsCredential}
use agentic_dev_pipeline.Poller.{
  after_issue, count_active, count_active_dev_tasks, max_concurrent_tasks, new_task, poll_issues,
  poll_parts, poll_repo, poll_tick, poller_goroutine, task_name,
}
use agentic_dev_pipeline.Poller.Tally.{
  Done, Kept, MayCreate, Tally, cap_gate, credential-Neutral, ensure_dev_task-Kept,
}

module _ (host : Host) where
  abbrev limit : ℕ
  limit = max_concurrent_tasks host.getenv

  abbrev Capped : Tally → Prog (Result Unit) → Type 0
  Capped s p = Safe (cap_gate limit) Done s p

  may_create :
      (repo : Text) (s : Tally) (n : ℕ) (before : List Issue) (issue : Issue) (after : List Issue)
      → repo ≡ s.owner ++ (b'/' ∷ s.repo)
      → s.active ≡ some n
      → s.issues ≡ before ++ (issue ∷ after)
      → issue.is_pull_request ≡ false
      → ltb n limit ≡ true
      → MayCreate limit
          (record s { absent = some (task_name repo issue.number) })
          (new_task repo issue.number)
  unfolding new_task
  may_create repo s n before issue after same counted listed plain room = record {
    before = before;
    issue = issue;
    after = after;
    listed = listed;
    no_pull = plain;
    object = ap (λ r. new_task r issue.number) same;
    not_there = refl;
    count = n;
    counted = counted;
    below = ltb→lt n limit room;
  }

  poll_issues-Capped :
      (repo : Text) (s : Tally) (n : ℕ) (before issues : List Issue)
      → repo ≡ s.owner ++ (b'/' ∷ s.repo)
      → s.active ≡ some n
      → s.issues ≡ before ++ issues
      → Capped s (poll_issues repo limit n issues)
  unfolding poll_issues
  poll_issues-Capped repo s n before [] same counted listed = tt
  poll_issues-Capped repo s n before (issue ∷ issues) same counted listed =
      let shifted = listed ∙ sym (append_assoc before (issue ∷ []) issues) in
      elim (Bool-cases issue.is_pull_request) [
        | inl pull ↦
            rw pull
              (poll_issues-Capped repo s n (before ++ (issue ∷ [])) issues same counted shifted)
        | inr plain ↦ rw plain (
            Safe-bind (cap_gate limit) (Kept limit s n) Done s _ _
              (ensure_dev_task-Kept limit s n counted repo issue.number (ltb n limit)
                (may_create repo s n before issue issues same counted listed plain))
              λ t created kept.
                poll_issues-Capped repo t (after_issue n created) (before ++ (issue ∷ [])) issues
                  (same ∙ ap₂ (λ o r. o ++ (b'/' ∷ r)) (sym kept.same_owner) (sym kept.same_repo))
                  kept.count (kept.same_issues ∙ shifted))
      ]

  poll_parts-Capped :
      (repo token : Text) (s : Tally) (parts : Text × Option Text)
      → split2 b'/' repo ≡ parts
      → Capped s (poll_parts host repo token parts)
  unfolding poll_parts count_active_dev_tasks attempt ◌>>=◌
  poll_parts-Capped repo token s (owner, none) e = tt
  poll_parts-Capped repo token s (owner, some name) e = (
    (refl, refl),
    elim [
      | err x ↦ tt
      | ok issues ↦ (
        refl,
        elim [
          | err x ↦ tt
          | ok tasks ↦
              poll_issues-Capped repo _ (count_active tasks) [] issues
                (subst (Joined b'/' repo) e (split2-Joined b'/' repo)) refl refl
        ],
      )
    ],
  )

  poll_repo-Capped : (repo : Text) (s : Tally) → Capped s (poll_repo host repo)
  unfolding poll_repo
  poll_repo-Capped repo s =
      Safe-attempt (cap_gate limit) Done s _ _ _
        (Calls-mono IsCredential (Neutral (cap_gate limit) s) (credential-Neutral limit s) _
          read_pipeline_credentials-IsCredential)
        (λ e. tt) λ creds. poll_parts-Capped repo creds.github_token s (split2 b'/' repo) refl

-- One round of polling, from any state of knowledge.
poll_tick-capped :
    (host : Host) (repos : List Text) (s : Tally)
    → Safe (cap_gate (max_concurrent_tasks host.getenv)) (λ _ _. Unit) s (poll_tick host repos)
unfolding poll_tick
poll_tick-capped host [] s = tt
poll_tick-capped host (repo ∷ repos) s =
    Safe-bind (cap_gate (max_concurrent_tasks host.getenv)) Done (λ _ _. Unit) s
      (poll_repo host repo) _ (poll_repo-Capped host repo s) λ t r u. poll_tick-capped host repos t

-- Whatever the services reply, and in whatever order ticks come until the poller is cancelled, its
-- goroutine over any repositories creates a task only for an issue that it listed by the label `ready-for-development` among the open ones and that is no pull
-- request, under that issue's name and with its repository, only where a look-up of that name found
-- nothing, and only while the active tasks counted after the listing, with those created since, are
-- fewer than the limit of the environment. It writes nothing else to the cluster or to GitHub.
pub poller-capped :
    (host : Host) (repos : List Text) (events : List LoopEvent) (s : Tally)
    → Safe
        (cap_gate (max_concurrent_tasks host.getenv))
        (λ _ _. Unit)
        s
        (poller_goroutine host repos events)
unfolding poller_goroutine
poller-capped host repos [] s = tt
poller-capped host repos (cancelled ∷ events) s = tt
poller-capped host repos (tick ∷ events) s =
    Safe-bind (cap_gate (max_concurrent_tasks host.getenv)) (λ _ _. Unit) (λ _ _. Unit) s
      (poll_tick host repos) _ (poll_tick-capped host repos s)
      λ t r u. poller-capped host repos events t
