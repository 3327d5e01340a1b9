-- ===== src/Samples/Copying.antt =====
-- A deep copy on a concrete heap, with a copy of times that takes the next cell.
use agentic_dev_pipeline.Prelude.{Option, [], arith, if◌then◌else◌, ltb, some, ℕ, ◌+◌, ◌==◌, ◌∷◌}
use agentic_dev_pipeline.Api.{failed}
use agentic_dev_pipeline.Api.Aliasing.{IsFaithful}
use agentic_dev_pipeline.Api.Copies.{Heap, TaskCells, TaskList, deep_copy_list}
use agentic_dev_pipeline.Api.Independence.{IsIndependent, deep_copy_list-IsIndependent}
use agentic_dev_pipeline.Samples.Inputs.{sample_namespace, sample_repo}

abbrev next_cell : Heap → ℕ → Heap × ℕ
next_cell h a = (
  record { size = h.size + 1; cells = λ j. if j == h.size then h.cells a else h.cells j },
  h.size,
)

next_cell-IsFaithful : IsFaithful next_cell
next_cell-IsFaithful = record {
  extends = λ h a. record { grows = omega arith; keeps = λ j l. ground arith };
  is_new = λ h a. omega arith;
  in_use = λ h a. omega arith;
  same_time = λ h a. ground arith;
}

-- Two times: 5 in the first cell, and 9 in all others.
abbrev two_times : Heap
two_times = record { size = 2; cells = λ j. if j == 0 then 5 else 9 }

abbrev failed_cells : TaskCells
failed_cells = record {
  name = b't' ∷ [];
  namespace = b'n' ∷ [];
  spec = record { issue_number = 7; repo = sample_repo };
  status = record {
    phase = failed;
    namespace = sample_namespace;
    pr_number = 0;
    started_at = some 0;
    failed_at = some 1;
    message = [];
  };
}

abbrev one_failed : Option TaskList
one_failed = some (record { items = some (failed_cells ∷ []) })

-- The first heap with the copied times overwritten, and the second with the original ones.
abbrev copies_lost : Heap
copies_lost = record { size = 4; cells = λ j. if ltb j 2 then two_times.cells j else 0 }

abbrev originals_lost : Heap
originals_lost = record {
  size = 4;
  cells = λ j. if ltb j 2 then 0 else (deep_copy_list next_cell two_times one_failed).0.cells j;
}

deep_copy_list-IsIndependent_example :
    IsIndependent two_times
      (deep_copy_list next_cell two_times one_failed).0
      copies_lost
      originals_lost
      one_failed
      (deep_copy_list next_cell two_times one_failed).1
deep_copy_list-IsIndependent_example =
    deep_copy_list-IsIndependent next_cell next_cell-IsFaithful two_times one_failed
      (((omega arith, omega arith), (omega arith, omega arith)), tt) copies_lost originals_lost
      (λ a l. ground arith) (λ a l. ground arith)
