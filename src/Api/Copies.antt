-- ===== src/Api/Copies.antt =====
-- operator/api/v1alpha1/zz_generated.deepcopy.go: the copies of the custom resource, where the two
-- times of a status are pointers to cells of a heap. `copy` is `DeepCopy` of metav1.Time, a function of
-- the library: a heap and the address of a time to a heap and an address. A nil pointer is `none`.
use agentic_dev_pipeline.Prelude.{List, Option, [], none, some, ℕ, ◌∷◌}
use agentic_dev_pipeline.Text.{Text}
use agentic_dev_pipeline.Api.{DevTaskPhase, DevTaskSpec}

-- The cells below `size` are in use.
pub record Heap : Type 0 where
  pub size : ℕ
  pub cells : ℕ → ℕ

pub record StatusCells : Type 0 where
  pub phase : DevTaskPhase
  pub namespace : Text
  pub pr_number : ℕ
  pub started_at : Option ℕ
  pub failed_at : Option ℕ
  pub message : Text

-- Of the metadata the name and the namespace.
pub record TaskCells : Type 0 where
  pub name : Text
  pub namespace : Text
  pub spec : DevTaskSpec
  pub status : StatusCells

-- `DevTaskList`, whose slice may be nil.
pub record TaskList : Type 0 where
  pub items : Option (List TaskCells)

module _ (copy : Heap → ℕ → Heap × ℕ) where
  -- `if in.P != nil { ...; *out = (*in).DeepCopy() }`
  abbrev pub copy_pointer : Heap → Option ℕ → Heap × Option ℕ
  copy_pointer h none = (h, none)
  copy_pointer h (some a) = let (g, b) = copy h a in (g, some b)

  -- `DeepCopyInto` of a status.
  unfoldable pub copy_status : Heap → StatusCells → Heap × StatusCells
  copy_status h status =
      let (g, started) = copy_pointer h status.started_at in
      let (k, failure) = copy_pointer g status.failed_at in
      (k, record status { started_at = started; failed_at = failure })

  -- `DeepCopyInto` of a task; a specification holds no pointer.
  unfoldable pub copy_task : Heap → TaskCells → Heap × TaskCells
  unfolding copy_status
  copy_task h task =
      let (g, status) = copy_status h task.status in (g, record task { status = status })

  unfoldable pub copy_items : Heap → List TaskCells → Heap × List TaskCells
  unfolding copy_task
  copy_items h [] = (h, [])
  copy_items h (t ∷ ts) = let (g, u) = copy_task h t in let (k, us) = copy_items g ts in (k, u ∷ us)

  -- `DeepCopyInto` of a list.
  unfoldable pub copy_list : Heap → TaskList → Heap × TaskList
  unfolding copy_items
  copy_list h list = elim list.items [
    | none ↦ (h, record { items = none })
    | some ts ↦ let (g, us) = copy_items h ts in (g, record { items = some us })
  ]

  -- `DeepCopy` of a status and of a specification.
  pub deep_copy_status : Heap → Option StatusCells → Heap × Option StatusCells
  unfolding copy_status
  deep_copy_status h none = (h, none)
  deep_copy_status h (some status) = let (g, out) = copy_status h status in (g, some out)

  pub deep_copy_spec : Heap → Option DevTaskSpec → Heap × Option DevTaskSpec
  deep_copy_spec h spec = (h, spec)

  -- `DeepCopy`, and `DeepCopyObject`, which gives a nil interface for a nil pointer, of a task and of a
  -- list.
  pub deep_copy : Heap → Option TaskCells → Heap × Option TaskCells
  unfolding copy_task
  deep_copy h none = (h, none)
  deep_copy h (some task) = let (g, out) = copy_task h task in (g, some out)

  unfoldable pub deep_copy_list : Heap → Option TaskList → Heap × Option TaskList
  unfolding copy_list
  deep_copy_list h none = (h, none)
  deep_copy_list h (some list) = let (g, out) = copy_list h list in (g, some out)
