-- ===== src/World/Laws.antt =====
-- What the effects of creations keep, and induction over runs.
use agentic_dev_pipeline.Prelude.{
  Bool, Option, ap, false, inl, inr, none, some, sym, true, ◌∙◌, ◌≡◌, ◌≢◌, ◌⊎◌,
}
use agentic_dev_pipeline.Effects.{
  Call, Prog, Reply, Result, call, err, ignore_already_exists, is_already_exists, ok, out_of_pages,
  panic, ret,
}
use agentic_dev_pipeline.Effects.Monitor.{Calls, Monitor, Safe}
use agentic_dev_pipeline.World.{
  ApiServer, Created, Key, Object, Objects, Placed, Present, Refused, Runs, Unchanged, finished,
  interrupted, served,
}

pub Unchanged-Present : (f g : Objects) → Unchanged f g → (j : Key) → Present f j → Present g j
Unchanged-Present f g u j h = (h.0, u j ∙ h.1)

module _ (k : Key) (o : Object) (f g : Objects) where
  Refused-cases : (b : Bool) → Refused k o b f g → Unchanged f g ⊎ Placed k o f g
  Refused-cases true h = inl h.1
  Refused-cases false h = h

  -- A creation stores the object in an empty slot, or leaves everything.
  pub Created-cases : (r : Result Unit) → Created k o r f g → Unchanged f g ⊎ Placed k o f g
  Created-cases (ok u) h = inr h
  Created-cases (err e) h = Refused-cases (is_already_exists e) h

  pub Created-elsewhere : (r : Result Unit) → Created k o r f g → (j : Key) → j ≢ k → g j ≡ f j
  Created-elsewhere r h j n = elim (Created-cases r h) [ inl u ↦ u j | inr p ↦ p.others j n ]

  -- What was there stays.
  pub Created-keeps : (r : Result Unit) → Created k o r f g → (j : Key) → Present f j → Present g j
  Created-keeps r h j there = elim (Created-cases r h) [
    | inl u ↦ Unchanged-Present f g u j there
    | inr p ↦ (
      there.0,
      p.others j (λ e. absurd (none_some (sym p.was_absent ∙ ap f (sym e) ∙ there.1))) ∙ there.1,
    )
  ]
    where
      none_some : {o : Object} → ¬ (none ≡ some o)
      none_some e = cc

  -- A reply that the caller takes for a success means that there is such an object.
  pub Created-Present :
      (r : Result Unit) → Created k o r f g → ignore_already_exists tt r ≡ ok tt → Present g k
  Created-Present (ok u) h e = (o, h.is_stored)
  Created-Present (err x) h e = refused (is_already_exists x) h e
    where
      refused :
          (b : Bool)
          → Refused k o b f g
          → elim b [ true ↦ ok tt | false ↦ err x ] ≡ ok tt
          → Present g k
      refused true h e = Unchanged-Present f g h.1 k h.0
      refused false h e = cc

-- What holds of the result, where there is one.
abbrev pub Post : {S A : Type 0} → (S → A → Type 0) → S → Option A → Type 0
Post Q b none = Unit
Post Q b (some a) = Q b a

module _ (api : ApiServer) {S : Type 0} (m : Monitor S) (J : S → api.State → Type 0) where
  module _
      (step : (b : S) (s t : api.State) (c : Call) (r : Reply c)
        → m.guard b c
        → J b s
        → api.Serves s c r t
        → J (m.next b c r) t) where
    -- What each step of a monitored program keeps holds wherever its run stops.
    pub Runs-Safe :
        {A : Type 0} (Q : S → A → Type 0) (b : S) (p : Prog A) {s t : api.State} {x : Option A}
        → Safe m Q b p
        → J b s
        → Runs api s p x t
        → (e : S) × J e t × Post Q e x
    Runs-Safe Q b p h j interrupted = (b, j, tt)
    Runs-Safe Q b _ h j finished = (b, j, h)
    Runs-Safe Q b _ h j (served {c} {k} r e run) =
        Runs-Safe Q (m.next b c r) (k r) (h.1 r) (step b _ _ c r h.0 j e) run

module _ {S A : Type 0} (m : Monitor S) (P : Call → Type 0) (Q : S → A → Type 0) where
  -- The calls of a program are in `P`, so the monitor may as well ask for it.
  pub Safe-Calls :
      (s : S) (p : Prog A)
      → Safe m Q s p
      → Calls P p
      → Safe (record m { guard = λ b c. m.guard b c × P c }) Q s p
  Safe-Calls s (ret a) h k = h
  Safe-Calls s panic h k = tt
  Safe-Calls s out_of_pages h k = tt
  Safe-Calls s (call c f) h k = ((h.0, k.0), λ r. Safe-Calls (m.next s c r) (f r) (h.1 r) (k.1 r))
