-- ===== src/Api/Aliasing.antt =====
-- The copies of zz_generated.deepcopy.go share no time with what they copy.
use agentic_dev_pipeline.Prelude.{
  All, List, Option, [], ap, ap₂, arith, map, none, refl, some, ℕ, ◌<◌, ◌∙◌, ◌∷◌, ◌≡◌, ◌≤◌,
}
use agentic_dev_pipeline.Api.{DevTask, DevTaskStatus}
use agentic_dev_pipeline.Api.Copies.{
  Heap, StatusCells, TaskCells, copy_pointer, copy_status, copy_task,
}

-- What is read through a pointer, in a status, and in a task.
abbrev pub deref : Heap → Option ℕ → Option ℕ
deref h none = none
deref h (some a) = some (h.cells a)

pub view_status : Heap → StatusCells → DevTaskStatus
view_status h s = record {
  phase = s.phase;
  namespace = s.namespace;
  pr_number = s.pr_number;
  started_at = deref h s.started_at;
  failed_at = deref h s.failed_at;
  message = s.message;
}

pub view : Heap → TaskCells → DevTask
unfolding view_status
view h t = record {
  name = t.name;
  namespace = t.namespace;
  spec = t.spec;
  status = view_status h t.status;
}

-- A pointer between two bounds, and an object whose pointers all are.
abbrev pub IsBetween : ℕ → ℕ → Option ℕ → Type 0
IsBetween low high none = Unit
IsBetween low high (some a) = (low ≤ a) × (a < high)

abbrev pub AllBetween : ℕ → ℕ → TaskCells → Type 0
AllBetween low high t =
    IsBetween low high t.status.started_at × IsBetween low high t.status.failed_at

-- The cells in use are kept.
pub record Extends (h g : Heap) : Type 0 where
  pub grows : h.size ≤ g.size
  pub keeps : (a : ℕ) → a < h.size → g.cells a ≡ h.cells a

-- The documented behaviour of `DeepCopy` of a time: a cell that was not in use, with that time.
pub record IsFaithful (copy : Heap → ℕ → Heap × ℕ) : Type 0 where
  pub extends : (h : Heap) (a : ℕ) → Extends h (copy h a).0
  pub is_new : (h : Heap) (a : ℕ) → h.size ≤ (copy h a).1
  pub in_use : (h : Heap) (a : ℕ) → (copy h a).1 < (copy h a).0.size
  pub same_time : (h : Heap) (a : ℕ) → (copy h a).0.cells (copy h a).1 ≡ h.cells a

pub Extends-trans : (h g k : Heap) → Extends h g → Extends g k → Extends h k
Extends-trans h g k x y = record {
  grows = omega (arith, x.grows, y.grows);
  keeps = λ a l. y.keeps a (omega (arith, x.grows)) ∙ x.keeps a l;
}

-- Heaps that agree on the cells between two bounds give one view of what points there.
module _ (low high : ℕ) (h g : Heap)
    (agree : (a : ℕ) → low ≤ a → a < high → g.cells a ≡ h.cells a) where
  deref-agree : (p : Option ℕ) → IsBetween low high p → deref g p ≡ deref h p
  deref-agree none b = refl
  deref-agree (some a) b = ap (λ t. some t) (agree a b.0 b.1)

  pub view-agree : (t : TaskCells) → AllBetween low high t → view g t ≡ view h t
  unfolding view view_status
  view-agree t b =
      ap₂
        (λ s f. record (view h t) {
          status = record (view_status h t.status) { started_at = s; failed_at = f };
        })
        (deref-agree t.status.started_at b.0) (deref-agree t.status.failed_at b.1)

  pub views-agree :
      (ts : List TaskCells) → All (AllBetween low high) ts → map (view g) ts ≡ map (view h) ts
  views-agree [] b = refl
  views-agree (t ∷ ts) b = ap₂ ◌∷◌ (view-agree t b.0) (views-agree ts b.1)

IsBetween-mono :
    (low high lower higher : ℕ) (p : Option ℕ)
    → lower ≤ low
    → high ≤ higher
    → IsBetween low high p
    → IsBetween lower higher p
IsBetween-mono low high lower higher none l g b = tt
IsBetween-mono low high lower higher (some a) l g b = (omega (arith, b.0), omega (arith, b.1))

pub AllBetween-mono :
    (low high lower higher : ℕ) (t : TaskCells)
    → lower ≤ low
    → high ≤ higher
    → AllBetween low high t
    → AllBetween lower higher t
AllBetween-mono low high lower higher t l g b =
    (IsBetween-mono low high lower higher _ l g b.0, IsBetween-mono low high lower higher _ l g b.1)

pub All-between :
    (low high lower higher : ℕ) (ts : List TaskCells)
    → lower ≤ low
    → high ≤ higher
    → All (AllBetween low high) ts
    → All (AllBetween lower higher) ts
All-between low high lower higher [] l g b = tt
All-between low high lower higher (t ∷ ts) l g b = (
  (
    IsBetween-mono low high lower higher _ l g b.0.0,
    IsBetween-mono low high lower higher _ l g b.0.1,
  ),
  All-between low high lower higher ts l g b.1,
)

-- A copy `out`, in the heap `g`, of `task`, in the heap `h`.
pub record IsCopy (h g : Heap) (task out : TaskCells) : Type 0 where
  pub extended : Extends h g
  pub apart : AllBetween h.size g.size out
  pub equal : view g out ≡ view h task

module _ (copy : Heap → ℕ → Heap × ℕ) (faithful : IsFaithful copy) where
  pointer-Extends : (h : Heap) (p : Option ℕ) → Extends h (copy_pointer copy h p).0
  pointer-Extends h none = record { grows = omega arith; keeps = λ a l. refl }
  pointer-Extends h (some a) = faithful.extends h a

  pointer-IsBetween :
      (h : Heap) (p : Option ℕ)
      → IsBetween h.size (copy_pointer copy h p).0.size (copy_pointer copy h p).1
  pointer-IsBetween h none = tt
  pointer-IsBetween h (some a) = (faithful.is_new h a, faithful.in_use h a)

  pointer-equal :
      (h : Heap) (p : Option ℕ)
      → deref (copy_pointer copy h p).0 (copy_pointer copy h p).1 ≡ deref h p
  pointer-equal h none = refl
  pointer-equal h (some a) = ap (λ t. some t) (faithful.same_time h a)

  -- In `s` the first pointer is copied from the heap `h`, then the second from the heap `g`.
  pub copy_task-IsCopy :
      (h : Heap) (t : TaskCells)
      → AllBetween 0 h.size t
      → IsCopy h (copy_task copy h t).0 t (copy_task copy h t).1
  unfolding copy_task copy_status view view_status
  copy_task-IsCopy h t b = record {
    extended = Extends-trans h g k first second;
    apart = (
      IsBetween-mono h.size g.size h.size k.size _ (omega arith) second.grows
          (pointer-IsBetween h t.status.started_at),
      IsBetween-mono g.size k.size h.size k.size _ first.grows (omega arith)
          (pointer-IsBetween g t.status.failed_at),
    );
    equal =
        ap₂
          (λ s f. record (view h t) {
            status = record (view_status h t.status) { started_at = s; failed_at = f };
          })
          (deref-agree h.size g.size g k (λ a l u. second.keeps a u) _
              (pointer-IsBetween h t.status.started_at)
            ∙ pointer-equal h t.status.started_at)
          (pointer-equal g t.status.failed_at
            ∙ deref-agree 0 h.size h g (λ a l u. first.keeps a u) t.status.failed_at b.1);
  }
    where
      g : Heap
      g = (copy_pointer copy h t.status.started_at).0

      k : Heap
      k = (copy_pointer copy g t.status.failed_at).0

      first : Extends h g
      first = pointer-Extends h t.status.started_at

      second : Extends g k
      second = pointer-Extends g t.status.failed_at
