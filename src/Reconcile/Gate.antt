-- ===== src/Reconcile/Gate.antt =====
-- `reconcileActivePod` of devtask_controller.go passes the gate of the diff policy.
use agentic_dev_pipeline.Prelude.{
  Bool, List, Option, [], ap, false, if◌then◌else◌, none, refl, some, true, ℕ, ◌∙◌, ◌∷◌, ◌≡◌,
}
use agentic_dev_pipeline.Text.{Text}
use agentic_dev_pipeline.Api.{DevTask, DevTaskPhase, running}
use agentic_dev_pipeline.Kube.{PodPhase, PullRequest, pod_failed, pod_running, pod_succeeded}
use agentic_dev_pipeline.Effects.{
  Call, Error, Host, Prog, Result, attempt, edit_pull, err, get_issue, ignore_not_found,
  is_not_found, list_files, now, ok, perform, ret, update_status, ◌>>=◌,
}
use agentic_dev_pipeline.Effects.Kinds.{IsLookup, IsTalk}
use agentic_dev_pipeline.Effects.Monitor.{
  Calls, Calls-mono, Neutral, Safe, Safe-after, Safe-attempt, Safe-bind-branch, Safe-then,
}
use agentic_dev_pipeline.Diff.Evaluate.{DiffViolation, evaluate_diff}
use agentic_dev_pipeline.Diff.Policy.{load_diff_policy}
use agentic_dev_pipeline.Sandbox.{find_pod, remove_namespace}
use agentic_dev_pipeline.Github.{reject_pr_for_diff_policy}
use agentic_dev_pipeline.Github.Clients.{with_client-Safe}
use agentic_dev_pipeline.Github.Reads.{
  ensure_pr_comment_on_issue-IsTalk, find_pod-Calls, find_pr_for_task-IsLookup,
  has_recent_clarification_comment-IsTalk,
}
use agentic_dev_pipeline.Reconcile.{
  after_failed_pod, after_policy, check_pr, handle_pod_succeeded, mark_running, on_pod_phase,
  reconcile_active_pod,
}
use agentic_dev_pipeline.Reconcile.Results.{Outcome, finish, mark_failed, seconds}
use agentic_dev_pipeline.Reconcile.Review.{
  BodyRead, Evaluated, Gated, Listed, PhaseGuard, Seen, credential_kind, diff_gate,
  get_issue_body-BodyRead, list_pr_files-Listed, nothing_seen, read_kind,
}

abbrev Done : {A : Type 0} → Seen → A → Type 0
Done s a = Unit

abbrev Passes : Host → DevTask → Seen → Prog Outcome → Type 0
Passes host task s p = Safe (diff_gate host task) Done s p

module _ (host : Host) (task : DevTask) where
  talk-Neutral : (s : Seen) (c : Call) → IsTalk c → Neutral (diff_gate host task) s c
  talk-Neutral s (update_status t) h = absurd h
  talk-Neutral s (edit_pull c n state) h = absurd h
  talk-Neutral s (list_files c n page) h = absurd h
  talk-Neutral s (get_issue c n) h = absurd h
  talk-Neutral s _ h = (tt, λ r. refl)

  -- Calls about comments, in front of the rest.
  after_talk :
      {A : Type 0} (s : Seen) (p : Prog A) (f : A → Prog Outcome)
      → Calls IsTalk p
      → ((a : A) → Passes host task s (f a))
      → Passes host task s (p >>= f)
  after_talk s p f h k =
      Safe-after (diff_gate host task) Done s p f
        (Calls-mono IsTalk (Neutral (diff_gate host task) s) (talk-Neutral s) p h) k

  or_stop :
      {A : Type 0} (s : Seen) (g : Error → Outcome) (p : Prog (Result A)) (f : A → Prog Outcome)
      → Calls IsTalk p
      → ((a : A) → Passes host task s (f a))
      → Passes host task s (attempt p (λ e. ret (g e)) f)
  or_stop s g p f h k =
      Safe-attempt (diff_gate host task) Done s p (λ e. ret (g e)) f
        (Calls-mono IsTalk (Neutral (diff_gate host task) s) (talk-Neutral s) p h) (λ e. tt) k

  finish-Gated :
      (s : Seen) (delay : ℕ) (new : DevTask)
      → PhaseGuard host s new.status.pr_number new.status.phase
      → Passes host task s (finish delay new)
  unfolding ◌>>=◌
  finish-Gated s delay new h = (h, λ r. tt)

  remove_namespace-Gated :
      (s : Seen) (ns : Text) (f : Result Unit → Prog Outcome)
      → ((r : Result Unit) → Passes host task s (f r))
      → Passes host task s (remove_namespace ns >>= f)
  unfolding remove_namespace ◌>>=◌
  remove_namespace-Gated s ns f k = (tt, λ r. k (ignore_not_found tt r))

  now-Gated :
      (s : Seen) (f : ℕ → Prog Outcome)
      → ((t : ℕ) → Passes host task s (f t))
      → Passes host task s (perform now >>= f)
  unfolding ◌>>=◌
  now-Gated s f k = (tt, k)

  give_up-Gated :
      (s : Seen) (delay : ℕ) (text : Text)
      → Passes host task s (perform now >>= λ t. finish delay (mark_failed t text task))
  unfolding mark_failed ◌>>=◌
  give_up-Gated s delay text = (tt, λ t. (tt, λ r. tt))

  reject-Gated :
      (s : Seen) (n : ℕ) (v : DiffViolation) (vs : List DiffViolation)
      → Evaluated host s n (v ∷ vs)
      → Gated host task (λ t a. t ≡ s) s (reject_pr_for_diff_policy task n (v ∷ vs))
  unfolding reject_pr_for_diff_policy attempt ◌>>=◌
  reject-Gated s n v vs e =
      with_client-Safe (diff_gate host task) (λ t a. t ≡ s) s (credential_kind host task s) task _
        (λ x. refl)
        λ client own. (tt, elim [ err x ↦ refl | ok u ↦ ((own, refl, v, vs, e), λ r. refl) ])

  after_policy-Gated :
      (s : Seen) (pr : PullRequest) (verdict : Option (List DiffViolation))
      → ((vs : List DiffViolation) → verdict ≡ some vs → Evaluated host s pr.number vs)
      → Passes host task s (after_policy task pr verdict)
  unfolding after_policy
  after_policy-Gated s pr none e = tt
  after_policy-Gated s pr (some []) e =
      or_stop s _ _ _ (ensure_pr_comment_on_issue-IsTalk task pr.html_url)
        λ _. finish-Gated s (seconds 120) _ (e [] refl)
  after_policy-Gated s pr (some (v ∷ vs)) e =
      Safe-then (diff_gate host task) Done s _ _ _ (reject-Gated s pr.number v vs (e (v ∷ vs) refl))
        (λ x. tt)
        λ _.
          remove_namespace-Gated s _ _
            λ _. now-Gated s _ λ t. finish-Gated s 0 _ (unfold mark_failed in tt)

  check_pr-Gated :
      (s : Seen) (found : Option PullRequest) → Passes host task s (check_pr host task found)
  unfolding check_pr
  check_pr-Gated s none = give_up-Gated s _ _
  check_pr-Gated s (some pr) =
      Safe-bind-branch (diff_gate host task) (Listed host task pr.number) Done s _ _ _
        (list_pr_files-Listed host task pr.number s) (λ t e h. tt)
        λ t files (same, whole, number).
          Safe-bind-branch (diff_gate host task) (BodyRead host task t) Done t _ _ _
            (get_issue_body-BodyRead host task t) (λ u e h. tt)
            λ u body at. after_policy-Gated u pr _ λ vs e. record {
              of_number = ap (λ x. x.number) at ∙ number;
              all_files = ap (λ x. x.complete) at ∙ whole;
              issue_body = body;
              body_read = ap (λ x. x.body) at;
              result =
                  ap
                    (λ fs.
                      evaluate_diff host.quote host.lower fs body (load_diff_policy host.getenv))
                    (ap (λ x. x.files) at ∙ same)
                  ∙ e;
            }

  after_failed_pod-Gated :
      (s : Seen) (clarified : Result Bool)
      → Passes host task s (after_failed_pod host task clarified)
  unfolding after_failed_pod
  after_failed_pod-Gated s (ok true) =
      remove_namespace-Gated s _ _ λ _. finish-Gated s (seconds 60) _ tt
  after_failed_pod-Gated s (ok false) = give_up-Gated s _ _
  after_failed_pod-Gated s (err e) = give_up-Gated s _ _

  mark_running-Gated : (s : Seen) (p : DevTaskPhase) → Passes host task s (mark_running p task)
  unfolding ◌>>=◌
  mark_running-Gated s running = tt
  mark_running-Gated s _ = (tt, λ r. tt)

  on_pod_phase-Gated : (s : Seen) (p : PodPhase) → Passes host task s (on_pod_phase host task p)
  unfolding on_pod_phase handle_pod_succeeded
  on_pod_phase-Gated s pod_running = mark_running-Gated s task.status.phase
  on_pod_phase-Gated s pod_succeeded =
      Safe-attempt (diff_gate host task) Done s _ _ _
        (Calls-mono IsLookup (Neutral (diff_gate host task) s) (read_kind host task s) _
          (find_pr_for_task-IsLookup task))
        (λ e. tt) (check_pr-Gated s)
  on_pod_phase-Gated s pod_failed =
      after_talk s _ _ (has_recent_clarification_comment-IsTalk task) (after_failed_pod-Gated s)
  on_pod_phase-Gated s _ = tt

  find_pod_step :
      (s : Seen) (ns : Text) (g : Error → Prog Outcome) (f : PodPhase → Prog Outcome)
      → ((e : Error) → Passes host task s (g e))
      → ((p : PodPhase) → Passes host task s (f p))
      → Passes host task s (attempt (find_pod ns) g f)
  find_pod_step s ns g f kg kf =
      Safe-attempt (diff_gate host task) Done s (find_pod ns) g f
        (find_pod-Calls (Neutral (diff_gate host task) s) ns (λ n p. (tt, λ r. refl))) kg kf

  if-Gated :
      (s : Seen) (b : Bool) (p q : Prog Outcome)
      → Passes host task s p
      → Passes host task s q
      → Passes host task s (if b then p else q)
  if-Gated s true p q hp hq = hp
  if-Gated s false p q hp hq = hq

-- Whatever the services reply, a pass over a task whose agent is at work sends the task to review only
-- where the diff policy, evaluated on every page of the files of that very pull request in the task's
-- repository and on the body of the task's own issue there, finds no violation; and it closes a pull
-- request, in the task's repository, only where the policy, so evaluated, finds one.
pub reconcile_active_pod-gated :
    (host : Host) (task : DevTask)
    → Safe (diff_gate host task) (λ _ _. Unit) nothing_seen (reconcile_active_pod host task)
unfolding reconcile_active_pod
reconcile_active_pod-gated host task =
    find_pod_step host task nothing_seen task.status.namespace _ _
      (λ e. if-Gated host task nothing_seen (is_not_found e) _ _ tt tt)
      (on_pod_phase-Gated host task nothing_seen)
