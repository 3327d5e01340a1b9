-- ===== src/World.antt =====
-- The API server behind client.Client of operator/internal/controller/namespace.go, pod.go and
-- secrets.go, which is not code of the repository: its states, what a call may do to the namespaces,
-- network policies, secrets and pods that it stores, and runs of the operator's programs against it.
pub mod Laws
pub mod Refine
pub mod Fencing
pub mod Ownership
pub mod Retry
pub mod Recovery
pub mod Isolation
use native.Mathlib.Decide.{ℕ_discrete}
use agentic_dev_pipeline.Prelude.{Bool, Option, false, none, some, true, ◌≡◌, ◌≢◌, ◌⊎◌}
use agentic_dev_pipeline.Text.{Text}
use agentic_dev_pipeline.Kube.{Namespace, NetworkPolicy, Pod, Secret}
use agentic_dev_pipeline.Effects.{
  Call, Prog, Reply, Result, call, create_namespace, create_network_policy, create_pod,
  create_secret, delete_namespace, delete_pod, err, is_already_exists, ok, ret, update_secret,
}

-- The kind, the namespace and the name of an object.
pub data Key : Type 0 where
  namespace_at : Text → Key
  policy_at secret_at pod_at : Text → Text → Key

unfoldable pub Key-discrete : Discrete Key
Key-discrete = hlevel (ℕ_discrete)

pub data Object : Type 0 where
  stored_namespace : Namespace → Object
  stored_policy : NetworkPolicy → Object
  stored_secret : Secret → Object
  stored_pod : Pod → Object

abbrev pub Objects : Type 0
Objects = Key → Option Object

-- `Serves s c r t`: in the state `s` the server may answer the call `c` by `r` and be in `t` then.
pub record ApiServer : Type 1 where
  pub State : Type 0
  pub Serves : State → (c : Call) → Reply c → State → Type 0
  pub objects : State → Objects

abbrev pub Unchanged : Objects → Objects → Type 0
Unchanged f g = (j : Key) → g j ≡ f j

-- The object is new, and all others stay.
pub record Placed (k : Key) (o : Object) (f g : Objects) : Type 0 where
  pub was_absent : f k ≡ none
  pub is_stored : g k ≡ some o
  pub others : (j : Key) → j ≢ k → g j ≡ f j

abbrev pub Present : Objects → Key → Type 0
Present f k = (o : Object) × (f k ≡ some o)

-- What a creation does that failed, by whether the reply says that the object exists already, which
-- is true of the state then; after any other error the object may have been stored or not.
abbrev pub Refused : Key → Object → Bool → Objects → Objects → Type 0
Refused k o true f g = Present f k × Unchanged f g
Refused k o false f g = Unchanged f g ⊎ Placed k o f g

abbrev pub Created : Key → Object → Result Unit → Objects → Objects → Type 0
Created k o (ok u) f g = Placed k o f g
Created k o (err e) f g = Refused k o (is_already_exists e) f g

-- Of the objects in `D` any may be gone, and all others stay.
abbrev pub Cleared : (Key → Type 0) → Objects → Objects → Type 0
Cleared D f g = (j : Key) → (g j ≡ f j) ⊎ (D j × (g j ≡ none))

-- The namespace itself, and what is in it.
abbrev pub IsWithin : Text → Key → Type 0
IsWithin ns (namespace_at n) = n ≡ ns
IsWithin ns (policy_at n name) = n ≡ ns
IsWithin ns (secret_at n name) = n ≡ ns
IsWithin ns (pod_at n name) = n ≡ ns

abbrev pub secret_place : Secret → Key
secret_place s = secret_at s.namespace s.name

-- The documented effect of each call on the stored objects, with success or without.
abbrev pub Effect : (c : Call) → Reply c → Objects → Objects → Type 0
Effect (create_namespace n) r f g = Created (namespace_at n.name) (stored_namespace n) r f g
Effect (create_network_policy p) r f g =
    Created (policy_at p.namespace p.name) (stored_policy p) r f g
Effect (create_secret s) r f g = Created (secret_place s) (stored_secret s) r f g
Effect (create_pod p) r f g = Created (pod_at p.namespace p.name) (stored_pod p) r f g
Effect (delete_namespace ns) r f g = Cleared (IsWithin ns) f g
Effect (delete_pod ns name) r f g = Cleared (λ j. j ≡ pod_at ns name) f g
Effect (update_secret s) r f g =
    ((g (secret_place s) ≡ f (secret_place s)) ⊎ (g (secret_place s) ≡ some (stored_secret s)))
    × ((j : Key) → j ≢ secret_place s → g j ≡ f j)
Effect c r f g = Unchanged f g

abbrev pub IsLawful : ApiServer → Type 0
IsLawful api =
    (s t : api.State) (c : Call) (r : Reply c)
    → api.Serves s c r t
    → Effect c r (api.objects s) (api.objects t)

-- A run from a state to a state. The operator may be stopped at any point, also between a call that
-- was served and its reply: such a run has no result.
pub data Runs (api : ApiServer) {A : Type 0}
    : api.State → Prog A → Option A → api.State → Type 0 where
  interrupted : {s : api.State} {p : Prog A} → Runs api s p none s
  finished : {s : api.State} {a : A} → Runs api s (ret a) (some a) s
  served :
      {s t u : api.State} {c : Call} {k : Reply c → Prog A} {x : Option A} (r : Reply c)
      → api.Serves s c r t
      → Runs api t (k r) x u
      → Runs api s (call c k) x u
