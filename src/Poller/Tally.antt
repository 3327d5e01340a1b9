-- ===== src/Poller/Tally.antt =====
-- When github_poller.go may create a task, and one issue of its loop.
use agentic_dev_pipeline.Prelude.{
  Bool, List, Option, [], false, if◌then◌else◌, none, refl, some, true, ℕ, ◌++◌, ◌+◌, ◌<◌, ◌∷◌, ◌≡◌,
}
use agentic_dev_pipeline.Text.{Text, codes}
use agentic_dev_pipeline.Api.{DevTask}
use agentic_dev_pipeline.Kube.{Issue}
use agentic_dev_pipeline.Effects.{
  Call, Error, Reply, Result, attempt, create_dev_task, err, fail, get_dev_task, is_not_found,
  list_dev_tasks, list_issues, ok, perform, succeed, ◌>>=◌,
}
use agentic_dev_pipeline.Effects.Kinds.{CredentialKind, IsCredential, kind}
use agentic_dev_pipeline.Effects.Monitor.{Monitor, Neutral, Safe}
use agentic_dev_pipeline.Credentials.{system_namespace}
use agentic_dev_pipeline.Poller.{after_issue, count_active, ensure_dev_task, new_task, task_name}

-- What a round of polling has learnt: the repository and the issues that were listed last, the count
-- of active tasks with those created since, and the name last looked up in vain.
pub record Tally : Type 0 where
  pub owner : Text
  pub repo : Text
  pub issues : List Issue
  pub active : Option ℕ
  pub absent : Option Text

abbrev pub nothing_known : Tally
nothing_known = record { owner = []; repo = []; issues = []; active = none; absent = none }

abbrev pub one_more : Option ℕ → Option ℕ
one_more none = none
one_more (some n) = some (n + 1)

abbrev pub if_absent : Bool → Text → Option Text
if_absent true name = some name
if_absent false name = none

abbrev pub next_tally : Tally → (c : Call) → Reply c → Tally
next_tally s (list_issues c label state) (ok issues) = record s {
  owner = c.owner;
  repo = c.name;
  issues = issues;
  active = none;
}
next_tally s (list_dev_tasks ns) (ok tasks) = record s { active = some (count_active tasks) }
next_tally s (get_dev_task ns name) (ok task) = record s { absent = none }
next_tally s (get_dev_task ns name) (err e) = record s { absent = if_absent (is_not_found e) name }
next_tally s (create_dev_task t) (ok u) = record s { active = one_more s.active; absent = none }
next_tally s _ r = s

-- A task may be created for an issue that was listed and is no pull request, if no task has its name,
-- and while the count is below the limit.
pub record MayCreate (limit : ℕ) (s : Tally) (t : DevTask) : Type 0 where
  pub before : List Issue
  pub issue : Issue
  pub after : List Issue
  pub listed : s.issues ≡ before ++ (issue ∷ after)
  pub no_pull : issue.is_pull_request ≡ false
  pub object : t ≡ new_task (s.owner ++ (b'/' ∷ s.repo)) issue.number
  pub not_there : s.absent ≡ some t.name
  pub count : ℕ
  pub counted : s.active ≡ some count
  pub below : count < limit

-- Issues are listed by the label; nothing but tasks is written.
abbrev pub CapGuard : ℕ → Tally → Call → Type 0
CapGuard limit s (create_dev_task t) = MayCreate limit s t
CapGuard limit s (list_issues c label state) =
    (label ≡ codes "ready-for-development") × (state ≡ codes "open")
CapGuard limit s (get_dev_task ns name) = ns ≡ system_namespace
CapGuard limit s (list_dev_tasks ns) = ns ≡ system_namespace
CapGuard limit s c = CredentialKind (kind c)

abbrev pub cap_gate : ℕ → Monitor Tally
cap_gate limit = record { guard = CapGuard limit; next = next_tally }

abbrev pub Done : {A : Type 0} → Tally → A → Type 0
Done s a = Unit

module _ (limit : ℕ) where
  pub credential-Neutral : (s : Tally) (c : Call) → IsCredential c → Neutral (cap_gate limit) s c
  credential-Neutral s (create_dev_task t) h = absurd h
  credential-Neutral s (list_issues c label state) h = absurd h
  credential-Neutral s (list_dev_tasks ns) h = absurd h
  credential-Neutral s (get_dev_task ns name) h = absurd h
  credential-Neutral s _ h = (h, λ r. refl)

  -- After one issue the count is kept.
  pub record Kept (s : Tally) (n : ℕ) (t : Tally) (r : Result Bool) : Type 0 where
    pub same_owner : t.owner ≡ s.owner
    pub same_repo : t.repo ≡ s.repo
    pub same_issues : t.issues ≡ s.issues
    pub count : t.active ≡ some (after_issue n r)

  module _ (s : Tally) (n : ℕ) (counted : s.active ≡ some n) where
    create-Kept :
        (name : Text) (t : DevTask)
        → MayCreate limit (record s { absent = some name }) t
        → Safe
            (cap_gate limit)
            (Kept s n)
            (record s { absent = some name })
            (attempt (perform (create_dev_task t)) fail (λ _. succeed true))
    unfolding attempt ◌>>=◌
    create-Kept name t may = (
      may,
      elim [
        | err e ↦ record {
          same_owner = refl;
          same_repo = refl;
          same_issues = refl;
          count = counted;
        }
        | ok u ↦ record {
          same_owner = refl;
          same_repo = refl;
          same_issues = refl;
          count = rw counted;
        }
      ],
    )

    absent-Kept :
        (name : Text) (allow found : Bool) (t : DevTask) (e : Error)
        → (allow ≡ true → MayCreate limit (record s { absent = some name }) t)
        → Safe
            (cap_gate limit)
            (Kept s n)
            (record s { absent = if_absent found name })
            (if found
              then (if allow
                  then attempt (perform (create_dev_task t)) fail (λ _. succeed true)
                  else succeed false)
              else fail e)
    absent-Kept name true true t e may = create-Kept name t (may refl)
    absent-Kept name false true t e may = record {
      same_owner = refl;
      same_repo = refl;
      same_issues = refl;
      count = counted;
    }
    absent-Kept name allow false t e may = record {
      same_owner = refl;
      same_repo = refl;
      same_issues = refl;
      count = counted;
    }

    pub ensure_dev_task-Kept :
        (repo : Text) (issue : ℕ) (allow : Bool)
        → (allow ≡ true
            → MayCreate limit
                (record s { absent = some (task_name repo issue) })
                (new_task repo issue))
        → Safe (cap_gate limit) (Kept s n) s (ensure_dev_task repo issue allow)
    unfolding ensure_dev_task ◌>>=◌
    ensure_dev_task-Kept repo issue allow may = (
      refl,
      elim [
        | ok task ↦ record {
          same_owner = refl;
          same_repo = refl;
          same_issues = refl;
          count = counted;
        }
        | err e ↦
            absent-Kept (task_name repo issue) allow (is_not_found e) (new_task repo issue) e may
      ],
    )
