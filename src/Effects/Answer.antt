-- ===== src/Effects/Answer.antt =====
-- A run of a program against services that answer each call in one way.
use agentic_dev_pipeline.Prelude.{ap, ◌≡◌}
use agentic_dev_pipeline.Effects.{
  Call, Error, Prog, Reply, Result, attempt, call, err, ok, out_of_pages, panic, ret, ◌>>=◌,
}

pub data Exit (A : Type 0) : Type 0 where
  returned : A → Exit A
  panicked stopped : Exit A

abbrev pub Services : Type 0
Services = (c : Call) → Reply c

unfoldable pub answer : {A : Type 0} → Services → Prog A → Exit A
answer services (ret a) = returned a
answer services panic = panicked
answer services out_of_pages = stopped
answer services (call c k) = answer services (k (services c))

-- What follows a program that returns a value.
pub answer-attempt :
    {A B : Type 0} (services : Services) (p : Prog (Result A)) (g : Error → Prog B) (f : A → Prog B)
    (a : A)
    → answer services p ≡ returned (ok a)
    → answer services (attempt p g f) ≡ answer services (f a)
unfolding answer attempt ◌>>=◌
answer-attempt services (ret (ok b)) g f a h = ap (λ x. answer services (f x)) (value h)
  where
    value : {A : Type 0} {x y : A} → returned (ok x) ≡ returned (ok y) → x ≡ y
    value e = cc
answer-attempt services (ret (err e)) g f a h = cc
answer-attempt services panic g f a h = cc
answer-attempt services out_of_pages g f a h = cc
answer-attempt services (call c k) g f a h = answer-attempt services (k (services c)) g f a h
