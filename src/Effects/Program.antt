-- ===== src/Effects/Program.antt =====
-- Calls, the replies that each may get, and programs as trees of calls.
use agentic_dev_pipeline.Prelude.{ℕ, Bool, true, false, List, Option, ℤ}
use agentic_dev_pipeline.Text.{Text}
use agentic_dev_pipeline.Api.{DevTask}
use agentic_dev_pipeline.Diff.Evaluate.{CommitFile}
use agentic_dev_pipeline.Kube.{
  Namespace, NetworkPolicy, Secret, Pod, PodPhase, Issue, PullRequest, Comment,
}

-- Go errors. `wrap` is `fmt.Errorf` with `%w`, which the API predicates look through.
pub data Error : Type 0 where
  not_found already_exists other : Error
  message : Text → Error
  wrap : Text → Error → Error

unfoldable pub is_not_found : Error → Bool
is_not_found not_found = true
is_not_found (wrap t e) = is_not_found e
is_not_found _ = false

unfoldable pub is_already_exists : Error → Bool
is_already_exists already_exists = true
is_already_exists (wrap t e) = is_already_exists e
is_already_exists _ = false

pub data Result (A : Type 0) : Type 0 where
  ok : A → Result A
  err : Error → Result A

-- What the process is given: its environment, the verb `%q`, the table of `unicode.ToLower`,
-- `time.ParseDuration` (none for an error), a bound on the pages that a listing follows, and
-- `intstr.FromInt`, a number as the 32 bits that the object holds.
pub record Host : Type 0 where
  pub getenv : Text → Text
  pub quote : Text → Text
  pub lower : ℕ → ℕ
  pub parse_duration : Text → Option ℤ
  pub max_pages : ℕ
  pub from_int : ℕ → ℕ

-- A GitHub client is its token; with an owner and a name it addresses a repository.
pub record RepoClient : Type 0 where
  pub token : Text
  pub owner : Text
  pub name : Text

pub data Call : Type 0 where
  get_dev_task : Text → Text → Call
  list_dev_tasks : Text → Call
  create_dev_task update_status : DevTask → Call
  create_namespace : Namespace → Call
  delete_namespace : Text → Call
  create_network_policy : NetworkPolicy → Call
  get_secret : Text → Text → Call
  create_secret update_secret : Secret → Call
  create_pod : Pod → Call
  get_pod delete_pod : Text → Text → Call
  list_issues : RepoClient → Text → Text → Call
  get_pull : RepoClient → ℕ → Call
  list_pulls : RepoClient → Text → Call
  list_comments : RepoClient → ℕ → Call
  create_comment : RepoClient → ℕ → Text → Call
  remove_label : RepoClient → ℕ → Text → Call
  list_files : RepoClient → ℕ → ℕ → Call
  get_issue : RepoClient → ℕ → Call
  edit_pull : RepoClient → ℕ → Text → Call
  lock_transports unlock_transports : Call
  load_transport : Text → Call
  store_transport : Text → ℕ → Call
  new_transport : ℕ → ℕ → Text → Call
  mint_token : ℕ → Call
  now : Call

-- A transport is known by a number. `list_files` replies with a page and the next page, or 0.
abbrev pub Reply : Call → Type 0
Reply (get_dev_task ns name) = Result DevTask
Reply (list_dev_tasks ns) = Result (List DevTask)
Reply (get_secret ns name) = Result Secret
Reply (get_pod ns name) = Result PodPhase
Reply (list_issues c label state) = Result (List Issue)
Reply (get_pull c n) = Result PullRequest
Reply (list_pulls c state) = Result (List PullRequest)
Reply (list_comments c n) = Result (List Comment)
Reply (list_files c n page) = Result (List CommitFile × ℕ)
Reply (get_issue c n) = Result Issue
Reply lock_transports = Unit
Reply unlock_transports = Unit
Reply (load_transport key) = Option ℕ
Reply (store_transport key tr) = Unit
Reply (new_transport app inst pem) = Result ℕ
Reply (mint_token tr) = Result Text
Reply now = ℕ
Reply _ = Result Unit

-- What the `select` of a goroutine with a ticker takes next.
pub data LoopEvent : Type 0 where
  tick cancelled : LoopEvent

-- `panic` is a Go panic; `out_of_pages` belongs to the model only.
pub data Prog (A : Type 0) : Type 0 where
  ret : A → Prog A
  panic out_of_pages : Prog A
  call : (c : Call) → (Reply c → Prog A) → Prog A

abbrev pub perform : (c : Call) → Prog (Reply c)
perform c = call c ret

infixl 5 ◌>>=◌ ◌>>◌
unfoldable pub ◌>>=◌ : {A B : Type 0} → Prog A → (A → Prog B) → Prog B
ret a >>= f = f a
panic >>= f = panic
out_of_pages >>= f = out_of_pages
call c k >>= f = call c (λ r. k r >>= f)

unfoldable pub ◌>>◌ : {A B : Type 0} → Prog A → Prog B → Prog B
unfolding ◌>>=◌
m >> k = m >>= λ _. k

abbrev pub succeed : {A : Type 0} → A → Prog (Result A)
succeed a = ret (ok a)

abbrev pub fail : {A : Type 0} → Error → Prog (Result A)
fail e = ret (err e)

abbrev pub branch : {A B : Type 0} → (Error → Prog B) → (A → Prog B) → Result A → Prog B
branch g f (ok a) = f a
branch g f (err e) = g e

-- `a, err := m; if err != nil { return g(err) }; f(a)`
unfoldable pub attempt : {A B : Type 0} → Prog (Result A) → (Error → Prog B) → (A → Prog B) → Prog B
unfolding ◌>>=◌
attempt m g f = m >>= branch g f

-- `client.IgnoreNotFound` and `client.IgnoreAlreadyExists`
abbrev pub ignore_not_found : {A : Type 0} → A → Result A → Result A
ignore_not_found a (ok b) = ok b
ignore_not_found a (err e) = elim (is_not_found e) [ true ↦ ok a | false ↦ err e ]

abbrev pub ignore_already_exists : {A : Type 0} → A → Result A → Result A
ignore_already_exists a (ok b) = ok b
ignore_already_exists a (err e) = elim (is_already_exists e) [ true ↦ ok a | false ↦ err e ]
