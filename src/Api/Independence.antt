-- ===== src/Api/Independence.antt =====
-- The deep copies of lists of zz_generated.deepcopy.go, under later writes to the times.
use agentic_dev_pipeline.Prelude.{
  All, List, Option, [], ap, ap₂, arith, map, none, refl, some, ℕ, ◌<◌, ◌∙◌, ◌∷◌, ◌≡◌, ◌≤◌,
}
use agentic_dev_pipeline.Api.{DevTask}
use agentic_dev_pipeline.Api.Aliasing.{
  All-between, AllBetween, AllBetween-mono, Extends, Extends-trans, IsCopy, IsFaithful,
  copy_task-IsCopy, view, view-agree, views-agree,
}
use agentic_dev_pipeline.Api.Copies.{
  Heap, TaskCells, TaskList, copy_items, copy_list, copy_task, deep_copy_list,
}

-- A copy of a slice.
record IsItemsCopy (h g : Heap) (ts out : List TaskCells) : Type 0 where
  extended : Extends h g
  apart : All (AllBetween h.size g.size) out
  equal : map (view g) out ≡ map (view h) ts

-- A copy of the first task in the heap `g`, and of the others from there in the heap `k`.
cons-IsItemsCopy :
    (h g k : Heap) (t u : TaskCells) (ts us : List TaskCells)
    → All (AllBetween 0 h.size) ts
    → IsCopy h g t u
    → IsItemsCopy g k ts us
    → IsItemsCopy h k (t ∷ ts) (u ∷ us)
cons-IsItemsCopy h g k t u ts us b head tail = record {
  extended = Extends-trans h g k head.extended tail.extended;
  apart = (
    AllBetween-mono h.size g.size h.size k.size u (omega arith) tail.extended.grows head.apart,
    All-between g.size k.size h.size k.size us head.extended.grows (omega arith) tail.apart,
  );
  equal =
      ap₂ ◌∷◌
        (view-agree h.size g.size g k (λ a l r. tail.extended.keeps a r) u head.apart ∙ head.equal)
        (tail.equal ∙ views-agree 0 h.size h g (λ a l r. head.extended.keeps a r) ts b);
}

module _ (copy : Heap → ℕ → Heap × ℕ) (faithful : IsFaithful copy) where
  copy_items-IsItemsCopy :
      (h : Heap) (ts : List TaskCells)
      → All (AllBetween 0 h.size) ts
      → IsItemsCopy h (copy_items copy h ts).0 ts (copy_items copy h ts).1
  unfolding copy_items
  copy_items-IsItemsCopy h [] b = record {
    extended = record { grows = omega arith; keeps = λ a l. refl };
    apart = tt;
    equal = refl;
  }
  copy_items-IsItemsCopy h (t ∷ ts) b =
      let head = copy_task-IsCopy copy faithful h t b.0 in
      cons-IsItemsCopy h _ _ t _ ts _ b.1 head (
        copy_items-IsItemsCopy (copy_task copy h t).0 ts
          (All-between 0 h.size 0 _ ts (omega arith) head.extended.grows b.1))

-- What a list shows, none for a nil pointer and for a nil slice.
abbrev pub view_items : Heap → Option (List TaskCells) → Option (List DevTask)
view_items h none = none
view_items h (some ts) = some (map (view h) ts)

abbrev pub view_list : Heap → Option TaskList → Option (Option (List DevTask))
view_list h none = none
view_list h (some list) = some (view_items h list.items)

-- Every pointer of the list is to a cell in use.
abbrev pub IsInUse : Heap → Option TaskList → Type 0
IsInUse h none = Unit
IsInUse h (some list) = elim list.items [ none ↦ Unit | some ts ↦ All (AllBetween 0 h.size) ts ]

-- The second heap has every cell of the first as it was, and any number of others.
abbrev pub KeepsOld : Heap → Heap → Type 0
KeepsOld h k = (a : ℕ) → a < h.size → k.cells a ≡ h.cells a

-- The heap `m` has every cell of `g` that `h` did not use.
abbrev pub KeepsNew : Heap → Heap → Heap → Type 0
KeepsNew h g m = (a : ℕ) → h.size ≤ a → m.cells a ≡ g.cells a

-- What `copied`, in the heap `g`, shows of the list, in the heap `h`, then and after later writes.
pub record IsIndependent (h g k m : Heap) (list copied : Option TaskList) : Type 0 where
  pub copy_shows : view_list g copied ≡ view_list h list
  pub list_shows : view_list g list ≡ view_list h list
  pub list_still : view_list k list ≡ view_list h list
  pub copy_still : view_list m copied ≡ view_list h list

abbrev list_of : Option (List TaskCells) → Option TaskList
list_of items = some (record { items = items })

module _ (copy : Heap → ℕ → Heap × ℕ) (faithful : IsFaithful copy) where
  items-IsIndependent :
      (h : Heap) (items : Option (List TaskCells))
      → IsInUse h (list_of items)
      → (k m : Heap) → KeepsOld h k
      → KeepsNew h (deep_copy_list copy h (list_of items)).0 m
      → IsIndependent h
          (deep_copy_list copy h (list_of items)).0
          k
          m
          (list_of items)
          (deep_copy_list copy h (list_of items)).1
  unfolding deep_copy_list copy_list
  items-IsIndependent h none u k m old new = record {
    copy_shows = refl;
    list_shows = refl;
    list_still = refl;
    copy_still = refl;
  }
  items-IsIndependent h (some ts) u k m old new =
      let made = copy_items-IsItemsCopy copy faithful h ts u in
      record {
        copy_shows = ap list_seen made.equal;
        list_shows =
            ap list_seen (views-agree 0 h.size h _ (λ a l r. made.extended.keeps a r) ts u);
        list_still = ap list_seen (views-agree 0 h.size h k (λ a l r. old a r) ts u);
        copy_still =
            ap list_seen (views-agree h.size _ _ m (λ a l r. new a l) _ made.apart ∙ made.equal);
      }
    where
      list_seen : List DevTask → Option (Option (List DevTask))
      list_seen v = some (some v)

-- Where `DeepCopy` of a time gives a cell that was not in use, with that time: the deep copy of a list
-- whose pointers are to cells in use shows what the list showed before, and so does the list itself;
-- after any writes to cells that were not in use before the copy, the list still shows that, and after
-- any writes to cells that were in use before, the copy still shows it.
pub deep_copy_list-IsIndependent :
    (copy : Heap → ℕ → Heap × ℕ)
    → IsFaithful copy
    → (h : Heap) (list : Option TaskList) → IsInUse h list
    → (k m : Heap) → KeepsOld h k
    → KeepsNew h (deep_copy_list copy h list).0 m
    → IsIndependent h (deep_copy_list copy h list).0 k m list (deep_copy_list copy h list).1
unfolding deep_copy_list
deep_copy_list-IsIndependent copy faithful h none used k m old new = record {
  copy_shows = refl;
  list_shows = refl;
  list_still = refl;
  copy_still = refl;
}
deep_copy_list-IsIndependent copy faithful h (some list) used k m old new =
    items-IsIndependent copy faithful h list.items used k m old new
