-- ===== src/Lib.antt =====
-- The operator of the agentic development pipeline (operator/internal/controller, Go): it turns labelled
-- GitHub issues into tasks, runs an agent for each in a sandbox of Kubernetes objects, and lets the
-- agent's pull request go to review only behind a policy on its diff.
--
-- The parts and how they interact. The poller (github_poller.go) creates `DevTask` objects
-- (operator/api/v1alpha1/devtask_types.go) for issues. The reconciler (devtask_controller.go) is
-- called with each task, again and again, and drives its phase: it reads the pipeline's credentials
-- (secrets.go, github_app.go), creates the namespace, network policy, secret and pod of the sandbox
-- (namespace.go, networkpolicy.go, egress.go, pod.go), watches the pod, reads issue and pull request
-- through GitHub (github_poller.go), asks the diff policy (diff_policy.go) and writes the status. Beside
-- it a refresher keeps the token of the triage job's secret fresh (triage_token.go). The binary
-- (operator/cmd/main.go) sets the controller up and starts them.
--
-- How it is modelled. A function that talks to the cluster, to GitHub, to the clock or to the cache of
-- transports is a program (`Prog` of Effects/Program): a tree of calls, each with what follows every
-- reply of its type, errors included. The theorems on programs hold for all replies: `Calls` (of
-- Effects/Monitor) says that every call satisfies a predicate, and `Safe` runs a monitor beside the
-- program, which allows or refuses a call by what was called and replied before, and states what holds
-- at the end. A Go panic is the program `panic`. `if err != nil` is `attempt`. The environment, the
-- verb %q, the table of unicode.ToLower, time.ParseDuration and intstr.FromInt are the fields of `Host`,
-- arguments without any assumption unless a theorem names one.
--
-- Which file models which part (Go files are in operator/internal/controller):
--   Api         devtask_types.go: DevTask, its spec, phases and status
--               and operator/api/v1alpha1/zz_generated.deepcopy.go: the copies (Copies)
--   Kube        the fields of Kubernetes and GitHub objects that the operator sets or reads
--   Text        strings as bytes, and what the code calls of strings, strconv, path and unicode/utf8
--   Effects     calls, replies, programs, and the reasoning on them
--   Diff        diff_policy.go: defaultDiffPolicy and loadDiffPolicy (Policy), globMatch (Glob),
--               parseApprovedGlobs (Approval), evaluateDiff (Evaluate)
--   Egress      egress.go and networkpolicy.go: the mode of the environment, the rules of the policy
--   Credentials secrets.go and github_app.go: readPipelineCredentials, githubAppToken,
--               installationToken
--   Sandbox     namespace.go, pod.go and ensureTaskSecret: the objects of a task, the scripts and the
--               prompts of its pods
--   Github      github_poller.go: findPRForTask, listPRFiles, humanRepliedAfterClarification and the
--               other functions on a task's issue and pull request
--   Poller      github_poller.go: pollRepo, ensureDevTask, countActiveDevTasks, the goroutine
--   Reconcile   devtask_controller.go: Reconcile, one function per phase; Diagram has the state
--               machine, Lifecycle the passes one after the other
--   Triage      triage_token.go: the closure refresh, upsertTriageGithubToken, the goroutine
--   World       the API server: runs of the programs against one that stores objects; Refine and
--               Isolation for a pass in any phase; Fencing, Ownership, Retry and Recovery for
--               passes that create pods
--   Boot        operator/cmd/main.go: the flags, the options of the servers, the steps of the start
--   Samples     concrete inputs, tests, and the theorems at them
--
-- Numbers, bounds and fuel. Counts of changed lines wrap at 64 bits as Go's int does, and so does the
-- port of the proxy; issue and pull request numbers, which GitHub gives out, are not negative and do
-- not wrap. Times and delays are nanoseconds. The loop of listPRFiles over pages runs on the bound
-- `max_pages` of the host and becomes `out_of_pages` behind it; Github/Pages proves that a listing that
-- ends within the bound is returned whole, and every other theorem holds for every bound. The reader
-- and the matcher of path patterns take at least one byte or item in each round and have as much fuel as
-- there are; the printer of numbers has one round for each unit of the number and one more.
--
-- The API server is not code of the repository. Most theorems assume nothing of it, nor of GitHub and
-- ghinstallation: they are the replies of the calls. The theorems of World take one as an argument, a
-- record of its states, of how it may serve a call and of the objects that it stores, with the
-- hypothesis `IsLawful` that each call has its documented effect on the stored objects, errors and lost
-- replies included; for Recovery also `IsResponsive`, that it can answer with success. There a run may
-- stop at any point, no one but the operator changes the objects while it lasts, and what is lost with
-- a deleted namespace is lost with the call that deletes it.
--
-- Not modelled: the scheme, the logger, the parsing of the flags and the intervals of the tickers; the
-- registration of the API group; tests; manifests and shell scripts, which are no Go code; logging. A
-- status update is the whole object as the pass leaves it; the rejection of an update of an object that
-- has changed in between is one of the errors that a call may reply with. In Lifecycle no one but the
-- poller and the reconciler writes a task. The tasks that the poller counts are those of the reply to
-- its listing, which the library's cache answers and which may lag behind the cluster.
pub mod Prelude
pub mod Text
pub mod Diff
pub mod Api
pub mod Kube
pub mod Effects
pub mod Egress
pub mod Credentials
pub mod Sandbox
pub mod Github
pub mod Poller
pub mod Reconcile
pub mod Triage
pub mod World
pub mod Boot
pub mod Samples
