-- ===== src/Samples/Memory.antt =====
-- An API server that keeps the objects in memory.
use agentic_dev_pipeline.Prelude.{
  Option, Option-cases, ap, inl, inr, none, refl, some, subst, sym, ◌∙◌, ◌≡◌, ◌≢◌,
}
use agentic_dev_pipeline.Api.{DevTask}
use agentic_dev_pipeline.Effects.{
  Call, Result, already_exists, create_namespace, create_network_policy, create_pod, create_secret,
  delete_namespace, delete_pod, err, is_already_exists, ok, update_secret, update_status,
}
use agentic_dev_pipeline.Effects.Answer.{Services}
use agentic_dev_pipeline.Poller.{new_task}
use agentic_dev_pipeline.Samples.Inputs.{sample_repo, sample_services}
use agentic_dev_pipeline.World.{
  ApiServer, Created, Effect, IsLawful, Key, Key-discrete, Object, Objects, Placed, Unchanged,
  namespace_at, secret_place, stored_namespace, stored_pod, stored_policy, stored_secret,
}
use agentic_dev_pipeline.World.Fencing.{pod_place, policy_place}

abbrev filled : Object → Option Object → Option Object
filled o none = some o
filled o (some q) = some q

abbrev choose_slot : {P A : Type 0} → Dec P → A → A → A
choose_slot (yes p) a b = a
choose_slot (no n) a b = b

abbrev pub put_reply : Option Object → Result Unit
put_reply none = ok tt
put_reply (some q) = err already_exists

abbrev pub put : Key → Object → Objects → Objects
put k o s j = choose_slot (Key-discrete j k) (filled o (s k)) (s j)

-- Deletions are refused, and every other call is answered as in `sample_services`.
abbrev pub stores : Objects → Services
stores s (create_namespace n) = put_reply (s (namespace_at n.name))
stores s (create_network_policy p) = put_reply (s (policy_place p))
stores s (create_secret c) = put_reply (s (secret_place c))
stores s (create_pod p) = put_reply (s (pod_place p))
stores s (update_status t) = ok tt
stores s c = sample_services c

abbrev pub after : Objects → Call → Objects
after s (create_namespace n) = put (namespace_at n.name) (stored_namespace n) s
after s (create_network_policy p) = put (policy_place p) (stored_policy p) s
after s (create_secret c) = put (secret_place c) (stored_secret c) s
after s (create_pod p) = put (pod_place p) (stored_pod p) s
after s c = s

abbrev pub memory : ApiServer
memory = record {
  State = Objects;
  Serves = λ s c r t. (r ≡ stores s c) × (t ≡ after s c);
  objects = λ s. s;
}

-- The slot that was put holds an object.
pub put-again : (k : Key) (o : Object) (s : Objects) → put_reply (put k o s k) ≡ err already_exists
put-again k o s = at_key (Key-discrete k k) (s k)
  where
    at_key :
        (d : Dec (k ≡ k)) (q : Option Object)
        → put_reply (choose_slot d (filled o q) q) ≡ err already_exists
    at_key (yes e) none = refl
    at_key (yes e) (some q) = refl
    at_key (no n) q = absurd (n refl)

put-Created : (k : Key) (o : Object) (s : Objects) → Created k o (put_reply (s k)) s (put k o s)
unfolding is_already_exists
put-Created k o s = elim (Option-cases (s k)) [
  | inl e ↦ subst (λ z. Created k o (put_reply z) s (put k o s)) (sym e) (placed e)
  | inr x ↦ subst (λ z. Created k o (put_reply z) s (put k o s)) (sym x.1) (known x.0 x.1)
]
  where
    at_key : (d : Dec (k ≡ k)) → choose_slot d (filled o (s k)) (s k) ≡ filled o (s k)
    at_key (yes e) = refl
    at_key (no n) = absurd (n refl)

    elsewhere : (j : Key) (d : Dec (j ≡ k)) → j ≢ k → choose_slot d (filled o (s k)) (s j) ≡ s j
    elsewhere j (yes e) n = absurd (n e)
    elsewhere j (no m) n = refl

    placed : s k ≡ none → Placed k o s (put k o s)
    placed e = record {
      was_absent = e;
      is_stored = at_key (Key-discrete k k) ∙ ap (filled o) e;
      others = λ j n. elsewhere j (Key-discrete j k) n;
    }

    same :
        (q : Object)
        → s k ≡ some q
        → (j : Key) (d : Dec (j ≡ k)) → choose_slot d (filled o (s k)) (s j) ≡ s j
    same q e j (yes i) = ap (filled o) e ∙ sym e ∙ ap s (sym i)
    same q e j (no m) = refl

    kept : (q : Object) → s k ≡ some q → Unchanged s (put k o s)
    kept q e j = same q e j (Key-discrete j k)

    known : (q : Object) → s k ≡ some q → Created k o (put_reply (some q)) s (put k o s)
    known q e = ((q, e), kept q e)

stores-Effect : (s : Objects) (c : Call) → Effect c (stores s c) s (after s c)
stores-Effect s (create_namespace n) = put-Created _ _ s
stores-Effect s (create_network_policy p) = put-Created _ _ s
stores-Effect s (create_secret c) = put-Created _ _ s
stores-Effect s (create_pod p) = put-Created _ _ s
stores-Effect s (delete_namespace ns) = λ j. inl refl
stores-Effect s (delete_pod ns name) = λ j. inl refl
stores-Effect s (update_secret c) = (inl refl, λ j n. refl)
stores-Effect s (update_status t) = λ j. refl
stores-Effect s _ = λ j. refl

pub memory-IsLawful : IsLawful memory
memory-IsLawful s t c r h =
    subst (λ q. Effect c q s t) (sym h.0)
      (subst (λ q. Effect c (stores s c) s q) (sym h.1) (stores-Effect s c))

abbrev pub no_objects : Objects
no_objects k = none

abbrev pub fresh_task : DevTask
fresh_task = new_task sample_repo 7
