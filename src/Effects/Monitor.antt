-- ===== src/Effects/Monitor.antt =====
-- Safety of programs, over all replies of the services: a monitor follows the calls with a state of
-- its own and says which call may be made in which state.
use agentic_dev_pipeline.Prelude.{◌≡◌}
use agentic_dev_pipeline.Effects.{
  Call, Error, Prog, Reply, Result, attempt, branch, call, err, ok, out_of_pages, panic, perform,
  ret, ◌>>=◌,
}

pub record Monitor (S : Type 0) : Type 1 where
  pub guard : S → Call → Type 0
  pub next : S → (c : Call) → Reply c → S

-- Whatever the services reply, each call is allowed by the monitor, and `Q` holds of its state and
-- of the result where the program returns.
abbrev pub Safe : {S A : Type 0} → Monitor S → (S → A → Type 0) → S → Prog A → Type 0
Safe m Q s (ret a) = Q s a
Safe m Q s panic = Unit
Safe m Q s out_of_pages = Unit
Safe m Q s (call c k) = m.guard s c × ((r : Reply c) → Safe m Q (m.next s c r) (k r))

-- Every call that the program can make satisfies `P`.
abbrev pub Calls : {A : Type 0} → (Call → Type 0) → Prog A → Type 0
Calls P (ret a) = Unit
Calls P panic = Unit
Calls P out_of_pages = Unit
Calls P (call c k) = P c × ((r : Reply c) → Calls P (k r))

module _ {S A B : Type 0} (m : Monitor S) (R : S → A → Type 0) (Q : S → B → Type 0) where
  pub Safe-bind :
      (s : S) (p : Prog A) (f : A → Prog B)
      → Safe m R s p
      → ((t : S) (a : A) → R t a → Safe m Q t (f a))
      → Safe m Q s (p >>= f)
  unfolding ◌>>=◌
  Safe-bind s (ret a) f h k = k s a h
  Safe-bind s panic f h k = tt
  Safe-bind s out_of_pages f h k = tt
  Safe-bind s (call c g) f h k = (h.0, λ r. Safe-bind (m.next s c r) (g r) f (h.1 r) k)

module _ {A B : Type 0} (P : Call → Type 0) where
  pub Calls-bind :
      (p : Prog A) (f : A → Prog B) → Calls P p → ((a : A) → Calls P (f a)) → Calls P (p >>= f)
  unfolding ◌>>=◌
  Calls-bind (ret a) f h k = k a
  Calls-bind panic f h k = tt
  Calls-bind out_of_pages f h k = tt
  Calls-bind (call c g) f h k = (h.0, λ r. Calls-bind (g r) f (h.1 r) k)

  pub Calls-attempt :
      (p : Prog (Result A)) (g : Error → Prog B) (f : A → Prog B)
      → Calls P p
      → ((e : Error) → Calls P (g e))
      → ((a : A) → Calls P (f a))
      → Calls P (attempt p g f)
  unfolding attempt ◌>>=◌
  Calls-attempt (ret (ok a)) g f h kg kf = kf a
  Calls-attempt (ret (err e)) g f h kg kf = kg e
  Calls-attempt panic g f h kg kf = tt
  Calls-attempt out_of_pages g f h kg kf = tt
  Calls-attempt (call c k) g f h kg kf = (h.0, λ r. Calls-attempt (k r) g f (h.1 r) kg kf)

module _ {A B : Type 0} (P : Call → Type 0) where
  -- A branch on a result that is at hand, and one call with what is done with its reply.
  pub Calls-branch :
      (x : Result A) (g : Error → Prog B) (f : A → Prog B)
      → ((e : Error) → Calls P (g e))
      → ((a : A) → Calls P (f a))
      → Calls P (branch g f x)
  Calls-branch (ok a) g f kg kf = kf a
  Calls-branch (err e) g f kg kf = kg e

module _ {B : Type 0} (P : Call → Type 0) where
  pub Calls-call :
      (c : Call) (f : Reply c → Prog B)
      → P c
      → ((r : Reply c) → Calls P (f r))
      → Calls P (perform c >>= f)
  unfolding ◌>>=◌
  Calls-call c f h k = (h, k)

-- A call that the monitor allows in the state `s`, and that leaves it there.
abbrev pub Neutral : {S : Type 0} → Monitor S → S → Call → Type 0
Neutral m s c = m.guard s c × ((r : Reply c) → m.next s c r ≡ s)

module _ {A : Type 0} (P Q : Call → Type 0) (weaker : (c : Call) → P c → Q c) where
  pub Calls-mono : (p : Prog A) → Calls P p → Calls Q p
  Calls-mono (ret a) h = tt
  Calls-mono panic h = tt
  Calls-mono out_of_pages h = tt
  Calls-mono (call c k) h = (weaker c h.0, λ r. Calls-mono (k r) (h.1 r))

module _ {S A B : Type 0} (m : Monitor S) (Q : S → B → Type 0) (s : S) where
  -- Neutral calls in front of a program.
  pub Safe-after :
      (p : Prog A) (f : A → Prog B)
      → Calls (Neutral m s) p
      → ((a : A) → Safe m Q s (f a))
      → Safe m Q s (p >>= f)
  unfolding ◌>>=◌
  Safe-after (ret a) f h k = k a
  Safe-after panic f h k = tt
  Safe-after out_of_pages f h k = tt
  Safe-after (call c g) f h k = (h.0.0, λ r. rw (h.0.1 r) (Safe-after (g r) f (h.1 r) k))

  -- A branch on a result that is at hand.
  pub Safe-branch :
      (x : Result A) (g : Error → Prog B) (f : A → Prog B)
      → ((e : Error) → Safe m Q s (g e))
      → ((a : A) → Safe m Q s (f a))
      → Safe m Q s (branch g f x)
  Safe-branch (ok a) g f kg kf = kf a
  Safe-branch (err e) g f kg kf = kg e

  pub Safe-attempt :
      (p : Prog (Result A)) (g : Error → Prog B) (f : A → Prog B)
      → Calls (Neutral m s) p
      → ((e : Error) → Safe m Q s (g e))
      → ((a : A) → Safe m Q s (f a))
      → Safe m Q s (attempt p g f)
  unfolding attempt ◌>>=◌
  Safe-attempt (ret x) g f h kg kf = Safe-branch x g f kg kf
  Safe-attempt panic g f h kg kf = tt
  Safe-attempt out_of_pages g f h kg kf = tt
  Safe-attempt (call c k) g f h kg kf =
      (h.0.0, λ r. rw (h.0.1 r) (Safe-attempt (k r) g f (h.1 r) kg kf))

module _ {S B : Type 0} (m : Monitor S) (Q : S → B → Type 0) (s : S) where
  -- One call, and what is done with its reply.
  pub Safe-call :
      (c : Call) (f : Reply c → Prog B)
      → m.guard s c
      → ((r : Reply c) → Safe m Q (m.next s c r) (f r))
      → Safe m Q s (perform c >>= f)
  unfolding ◌>>=◌
  Safe-call c f g k = (g, k)

-- A program of neutral calls alone.
pub Safe-of_Calls :
    {S A : Type 0} (m : Monitor S) (s : S) (p : Prog A)
    → Calls (Neutral m s) p
    → Safe m (λ _ _. Unit) s p
Safe-of_Calls m s (ret a) h = tt
Safe-of_Calls m s panic h = tt
Safe-of_Calls m s out_of_pages h = tt
Safe-of_Calls m s (call c k) h = (h.0.0, λ r. rw (h.0.1 r) (Safe-of_Calls m s (k r) (h.1 r)))

-- A program whose calls the monitor allows in every state.
pub Safe-of_guard :
    {S A : Type 0} (m : Monitor S) (P : Call → Type 0)
    → ((s : S) (c : Call) → P c → m.guard s c)
    → (s : S) (p : Prog A) → Calls P p
    → Safe m (λ _ _. Unit) s p
Safe-of_guard m P allowed s (ret a) h = tt
Safe-of_guard m P allowed s panic h = tt
Safe-of_guard m P allowed s out_of_pages h = tt
Safe-of_guard m P allowed s (call c k) h =
    (allowed s c h.0, λ r. Safe-of_guard m P allowed (m.next s c r) (k r) (h.1 r))

module _ {S A B : Type 0} (m : Monitor S) (R : S → Result A → Type 0) (Q : S → B → Type 0) where
  -- The two ways out of a fallible program, each with what its postcondition says there.
  pub Safe-bind-branch :
      (s : S) (p : Prog (Result A)) (g : Error → Prog B) (f : A → Prog B)
      → Safe m R s p
      → ((t : S) (e : Error) → R t (err e) → Safe m Q t (g e))
      → ((t : S) (a : A) → R t (ok a) → Safe m Q t (f a))
      → Safe m Q s (attempt p g f)
  unfolding attempt
  Safe-bind-branch s p g f h kg kf = Safe-bind m R Q s p (branch g f) h (λ t x r. either t x r)
    where
      either : (t : S) (x : Result A) → R t x → Safe m Q t (branch g f x)
      either t (ok a) r = kf t a r
      either t (err e) r = kg t e r

module _ {S A B : Type 0} (m : Monitor S) (Q : S → B → Type 0) where
  -- A fallible program that leaves the monitor's state.
  pub Safe-then :
      (s : S) (p : Prog (Result A)) (g : Error → Prog B) (f : A → Prog B)
      → Safe m (λ t a. t ≡ s) s p
      → ((e : Error) → Safe m Q s (g e))
      → ((a : A) → Safe m Q s (f a))
      → Safe m Q s (attempt p g f)
  Safe-then s p g f h kg kf =
      Safe-bind-branch m (λ t a. t ≡ s) Q s p g f h (λ t e r. rw r (kg e)) (λ t a r. rw r (kf a))

module _ {S A : Type 0} (m : Monitor S) (Q R : S → A → Type 0) where
  module _ (weaker : (s : S) (a : A) → Q s a → R s a) where
    pub Safe-weaken : (s : S) (p : Prog A) → Safe m Q s p → Safe m R s p
    Safe-weaken s (ret a) h = weaker s a h
    Safe-weaken s panic h = tt
    Safe-weaken s out_of_pages h = tt
    Safe-weaken s (call c k) h = (h.0, λ r. Safe-weaken (m.next s c r) (k r) (h.1 r))
