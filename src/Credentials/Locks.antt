-- ===== src/Credentials/Locks.antt =====
-- The critical section of `installationToken` of github_app.go, over all replies.
use agentic_dev_pipeline.Prelude.{Option, [], ap₂, none, refl, some, ℕ, ◌++◌, ◌↔◌, ◌∷◌, ◌≡◌, ◌≢◌}
use agentic_dev_pipeline.Text.{Text}
use agentic_dev_pipeline.Text.Decimal.{is_digit, itoa}
use agentic_dev_pipeline.Text.Itoa.{itoa-injective}
use agentic_dev_pipeline.Text.Separators.{itoa-Lacks, split_at_first}
use agentic_dev_pipeline.Kube.{Secret}
use agentic_dev_pipeline.Effects.{
  Call, Error, Prog, Reply, Result, attempt, err, get_secret, load_transport, lock_transports,
  new_transport, ok, perform, store_transport, unlock_transports, ◌>>=◌, ◌>>◌,
}
use agentic_dev_pipeline.Effects.Monitor.{Monitor, Safe, Safe-bind-branch}
use agentic_dev_pipeline.Credentials.{
  checked_token, github_app_token, installation_token, read_pipeline_credentials, store_made,
  transport_for, transport_key,
}

-- The mutex is free; held; held with the key known to be missing from the cache; held with a transport
-- made for that key.
pub data LockState : Type 0 where
  free held : LockState
  missing : Text → LockState
  made : Text → ℕ → LockState

abbrev pub after_load : Text → Option ℕ → LockState
after_load key none = missing key
after_load key (some transport) = held

abbrev pub after_new : LockState → Result ℕ → LockState
after_new (missing key) (ok transport) = made key transport
after_new _ _ = held

abbrev pub next_lock : LockState → (c : Call) → Reply c → LockState
next_lock s lock_transports r = held
next_lock s unlock_transports r = free
next_lock s (load_transport key) r = after_load key r
next_lock s (new_transport app inst pem) r = after_new s r
next_lock s (store_transport key transport) r = held
next_lock s _ r = s

-- The mutex is taken when free and given back when held. The cache is read and written under it; a
-- transport is made only for the key that is missing, which is the key of its App and installation,
-- and is stored under that key. Every other call, the token's minting too, is made with the mutex free.
abbrev pub LockGuard : LockState → Call → Type 0
LockGuard s lock_transports = s ≡ free
LockGuard s unlock_transports = s ≢ free
LockGuard s (load_transport key) = s ≡ held
LockGuard s (new_transport app inst pem) = s ≡ missing (transport_key app inst)
LockGuard s (store_transport key transport) = s ≡ made key transport
LockGuard s _ = s ≡ free

abbrev pub lock_discipline : Monitor LockState
lock_discipline = record { guard = LockGuard; next = next_lock }

abbrev Released : {A : Type 0} → LockState → A → Type 0
Released s a = s ≡ free

abbrev Balanced : {A : Type 0} → LockState → Prog A → Type 0
Balanced s p = Safe lock_discipline Released s p

transport_for-Balanced :
    (app inst : ℕ) (pem : Text) (found : Option ℕ)
    → Balanced
        (after_load (transport_key app inst) found)
        (transport_for (transport_key app inst) app inst pem found)
unfolding transport_for store_made ◌>>=◌ ◌>>◌
transport_for-Balanced app inst pem (some transport) = ((λ e. cc), λ r. refl)
transport_for-Balanced app inst pem none = (
  refl,
  elim [ ok transport ↦ (refl, λ r. ((λ e. cc), λ u. refl)) | err e ↦ ((λ e'. cc), λ u. refl) ],
)

module _ {A B : Type 0} where
  after-Balanced :
      (p : Prog (Result A)) (g : Error → Prog B) (f : A → Prog B) (s : LockState)
      → Balanced s p
      → ((e : Error) → Balanced free (g e))
      → ((a : A) → Balanced free (f a))
      → Balanced s (attempt p g f)
  after-Balanced p g f s h kg kf =
      Safe-bind-branch lock_discipline Released Released s p g f h (λ t e r. rw r (kg e))
        (λ t a r. rw r (kf a))

installation_token-Balanced :
    (app inst : ℕ) (pem : Text) → Balanced free (installation_token app inst pem)
unfolding installation_token ◌>>=◌ ◌>>◌
installation_token-Balanced app inst pem = (
  refl,
  λ _. (
    refl,
    λ found.
        after-Balanced _ _ _ _ (transport_for-Balanced app inst pem found) (λ e. refl)
          (λ transport. (refl, λ r. refl)),
  ),
)

checked_token-Balanced : (a i : Option ℕ) (pem : Text) → Balanced free (checked_token a i pem)
unfolding checked_token
checked_token-Balanced (some a) (some i) (c ∷ pem) = installation_token-Balanced a i (c ∷ pem)
checked_token-Balanced (some a) (some i) [] = refl
checked_token-Balanced _ _ _ = refl

secret_read :
    {B : Type 0} (ns name : Text) (g : Error → Prog B) (f : Secret → Prog B)
    → ((e : Error) → Balanced free (g e))
    → ((s : Secret) → Balanced free (f s))
    → Balanced free (attempt (perform (get_secret ns name)) g f)
secret_read ns name g f kg kf = after-Balanced _ g f free (refl, λ r. refl) kg kf

github_app_token-Balanced : Balanced free github_app_token
unfolding github_app_token
github_app_token-Balanced = secret_read _ _ _ _ (λ e. refl) (λ s. checked_token-Balanced _ _ _)

-- Whatever the services reply, reading the credentials keeps the discipline of the transports' mutex
-- and leaves the mutex free, on the error paths too.
pub read_pipeline_credentials-balanced :
    Safe lock_discipline (λ s creds. s ≡ free) free read_pipeline_credentials
unfolding read_pipeline_credentials
read_pipeline_credentials-balanced =
    secret_read _ _ _ _ (λ e. refl)
      (λ s. after-Balanced _ _ _ free github_app_token-Balanced (λ e. refl) (λ t. refl))

-- The cache has one entry for each pair of an App and an installation: two pairs have one key exactly
-- if they are equal.
pub transport_key_iff :
    (a b i j : ℕ) → (transport_key a i ≡ transport_key b j) ↔ ((a ≡ b) × (i ≡ j))
unfolding transport_key
transport_key_iff a b i j = (
  λ h.
      let (app, inst) =
        split_at_first b'/' (itoa a) (itoa b) (itoa i) (itoa j)
          (itoa-Lacks b'/' a (unfold is_digit in refl))
          (itoa-Lacks b'/' b (unfold is_digit in refl)) h in
      (itoa-injective a b app, itoa-injective i j inst),
  λ (e, k). ap₂ (λ m n. itoa m ++ (b'/' ∷ itoa n)) e k,
)
