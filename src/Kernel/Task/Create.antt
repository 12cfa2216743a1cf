-- ===== src/Kernel/Task/Create.antt =====
-- `create_kernel_thread` of kernel/task.c over the allocator of kernel/memory.c.
use black_hole_os.Prelude.{
  ℕ, ◌+◌, ◌%◌, ◌^◌, ◌<◌, ◌≤◌, ◌≡◌, ◌≢◌, ◌⊎◌, inl, inr, refl, ◌∙◌, arith, Bool-cases, some, List, [],
  ◌∷◌, ◌++◌, length, All, leb,
}
use black_hole_os.Kernel.Memory.{Mem, Ptr, store, max_rounds, heap_start, memory_alloc}
use black_hole_os.Kernel.Memory.Blocks.{Block, IsHeap, InUse}
use black_hole_os.Kernel.Memory.AllocCall.{served, memory_alloc-fresh, memory_alloc-keeps}
use black_hole_os.Kernel.Memory.History.{write-IsHeap}
use black_hole_os.Kernel.Memory.Store.{store_ne}
use black_hole_os.Kernel.Task.{Scheduler, create_kernel_thread, name_task, prepare_task, push_frame}
use black_hole_os.Kernel.Task.Circle.{Links, Circle, Apart, Spread, link_task-Circle}

-- The 24 bytes of the task lie in blocks in use.
abbrev pub Owned : List Block → Ptr → Type 0
Owned bs t = (q : Ptr) → t ≤ q → q < t + 24 → InUse q heap_start bs

Links-same :
    (m m' : Mem) (t : Ptr) (us : List Ptr) (end : Ptr)
    → m' (t + 20) ≡ m (t + 20)
    → All (λ u. m' (u + 20) ≡ m (u + 20)) us
    → Links m t us end
    → Links m' t us end
Links-same m m' t [] end e es l = e ∙ l
Links-same m m' t (u ∷ us) end e (f, es) (g, l) = (e ∙ g, Links-same m m' u us end f es l)

All-map : (P Q : Ptr → Type 0) (us : List Ptr) → ((u : Ptr) → P u → Q u) → All P us → All Q us
All-map P Q [] f h = tt
All-map P Q (u ∷ us) f (h, hs) = (f u h, All-map P Q us f hs)

-- A task whose bytes were in no block in use does not overlap one whose bytes were.
Apart-fresh :
    (bs : List Block) (p t : Ptr)
    → ((q : Ptr) → p ≤ q → q < p + 24 → ¬ InUse q heap_start bs)
    → Owned bs t
    → Apart p t
Apart-fresh bs p t unused owned = elim (Bool-cases (leb (p + 24) t)) [
  | inl before ↦ inl (ground arith)
  | inr overlap ↦ elim (Bool-cases (leb (t + 24) p)) [
    | inl behind ↦ inr (ground arith)
    | inr overlap' ↦ elim (Bool-cases (leb p t)) [
      | inl low ↦
          absurd (unused t (ground arith) (ground arith) (owned t (omega arith) (omega arith)))
      | inr high ↦
          absurd (unused p (omega arith) (omega arith) (owned p (ground arith) (ground arith)))
    ]
  ]
]

-- The words that `prepare_task` leaves.
prepare_task-other :
    (entry_point : ℕ) (t stack : Ptr) (m : Mem) (q : Ptr)
    → (q < stack) ⊎ (stack + 4096 ≤ q)
    → (q < t) ⊎ (t + 16 ≤ q)
    → prepare_task entry_point t (stack, m) q ≡ m q
unfolding prepare_task push_frame store
prepare_task-other entry_point t stack m q out out' = ground arith

prepare_task-id :
    (entry_point : ℕ) (t stack : Ptr) (m : Mem)
    → (t + 24 ≤ stack) ⊎ (stack + 4096 ≤ t)
    → prepare_task entry_point t (stack, m) t ≡ m t
unfolding prepare_task push_frame store
prepare_task-id entry_point t stack m out = ground arith

module _ (entry_point : ℕ) (s : Scheduler) (bs : List Block) (p stack : Ptr) (m0 m2 : Mem)
    (heap : IsHeap s.memory bs) (block : memory_alloc s.memory 24 ≡ some (p, m0))
    (some_block : p ≢ 0) (room : memory_alloc (name_task s (p, m0)) 4096 ≡ some (stack, m2))
    (some_room : stack ≢ 0) where
  abbrev blocks : List Block
  blocks = served 24 bs

  abbrev named : Mem
  named = name_task s (p, m0)

  abbrev prepared : Mem
  prepared = prepare_task entry_point p (stack, m2)

  fresh :
      (q : Ptr)
      → p ≤ q
      → q < p + 24
      → (¬ InUse q heap_start bs) × InUse q heap_start blocks × IsHeap m0 blocks
  fresh q low high =
      memory_alloc-fresh s.memory bs 24 p m0 heap (omega arith) block q (omega arith) some_block low
        high

  named-IsHeap : IsHeap named blocks
  unfolding name_task
  named-IsHeap =
      let (unused, used, heap0) = fresh p (omega arith) (omega arith) in
      let (unused', used', heap0') = fresh (p + 16) (omega arith) (omega arith) in
      write-IsHeap _ blocks (p + 16) _ (write-IsHeap m0 blocks p s.next_pid heap0 used) used'

  named-other : (q : Ptr) → q ≢ p → q ≢ p + 16 → named q ≡ m0 q
  unfolding name_task
  named-other q ne ne' = store_ne _ (p + 16) _ q ne' ∙ store_ne m0 p s.next_pid q ne

  fresh_stack : (q : Ptr) → stack ≤ q → q < stack + 4096 → ¬ InUse q heap_start blocks
  fresh_stack q low high =
      (memory_alloc-fresh named blocks 4096 stack m2 named-IsHeap (omega arith) room q (omega arith)
        some_room low high).0

  outside_stack : (q : Ptr) → InUse q heap_start blocks → (q < stack) ⊎ (stack + 4096 ≤ q)
  outside_stack q used = elim (Bool-cases (leb stack q)) [
    | inr before ↦ inl (ground arith)
    | inl low ↦ elim (Bool-cases (leb (stack + 4096) q)) [
      | inl behind ↦ inr (ground arith)
      | inr inside ↦ absurd (fresh_stack q (ground arith) (ground arith) used)
    ]
  ]

  named_id : named p ≡ s.next_pid
  unfolding name_task store
  named_id = ground arith

  prepared_id : prepared p ≡ s.next_pid
  prepared_id =
      let used = (fresh p (omega arith) (omega arith)).1 in
      let (used2, same2) =
        memory_alloc-keeps named blocks 4096 stack m2 named-IsHeap (omega arith) room p used in
      let first = outside_stack p used in
      let last = outside_stack (p + 23) (fresh (p + 23) (omega arith) (omega arith)).1 in
      let away : (p + 24 ≤ stack) ⊎ (stack + 4096 ≤ p) = ground (arith, first, last) in
      prepare_task-id entry_point p stack m2 away ∙ same2 ∙ named_id

  -- Up to the linking, the words of the other blocks in use stay.
  prepared-keeps :
      (q : Ptr) → InUse q heap_start bs → (q < p) ⊎ (p + 24 ≤ q) → prepared q ≡ s.memory q
  prepared-keeps q used away =
      let (used0, same0) = memory_alloc-keeps s.memory bs 24 p m0 heap (omega arith) block q used in
      let (used2, same2) =
        memory_alloc-keeps named blocks 4096 stack m2 named-IsHeap (omega arith) room q used0 in
      prepare_task-other entry_point p stack m2 q (outside_stack q used0) (ground arith)
      ∙ same2
      ∙ named-other q (ground arith) (ground arith)
      ∙ same0

  -- The links of the tasks, and the new task among them.
  module _ (others : List Ptr) (owned : Owned bs s.ready_queue)
      (all_owned : All (Owned bs) others) where
    Apart-new : (t : Ptr) → Owned bs t → Apart p t
    Apart-new t own = Apart-fresh bs p t (λ q low high. (fresh q low high).0) own

    kept_link : (t : Ptr) → Owned bs t → prepared (t + 20) ≡ s.memory (t + 20)
    kept_link t own =
        let away = Apart-new t own in
        prepared-keeps (t + 20) (own (t + 20) (omega arith) (omega arith)) (ground arith)

    prepared-Circle : Circle s.memory s.ready_queue others → Circle prepared s.ready_queue others
    prepared-Circle =
        Links-same s.memory prepared s.ready_queue others s.ready_queue
          (kept_link s.ready_queue owned)
          (All-map (Owned bs) (λ u. prepared (u + 20) ≡ s.memory (u + 20)) others kept_link
            all_owned)

    -- Where memory holds a heap, the tasks lie in blocks in use and form a circle without overlaps,
    -- fewer than a heap can hold, and both allocations succeed, `create_kernel_thread` returns: the
    -- new task has become the last of the circle, overlaps no other, and has the next process
    -- number, and the counter goes on in 32 bits.
    pub create_kernel_thread-Circle :
        Circle s.memory s.ready_queue others
        → Spread (s.ready_queue ∷ others)
        → length others < max_rounds
        → (s' : Scheduler) × (create_kernel_thread entry_point s ≡ some s')
          × Circle s'.memory s.ready_queue (others ++ p ∷ [])
          × Spread (p ∷ s.ready_queue ∷ others)
          × (s'.current_task ≡ s.current_task)
          × (s'.memory p ≡ s.next_pid)
          × (s'.next_pid ≡ (s.next_pid + 1) % 2 ^ 32)
    unfolding create_kernel_thread
    create_kernel_thread-Circle circle spread enough =
        let all_spread : Spread (p ∷ s.ready_queue ∷ others) = (
          (Apart-new s.ready_queue owned, All-map (Owned bs) (Apart p) others Apart-new all_owned),
          spread,
        ) in
        let (linked, e, circle', fields) =
          link_task-Circle prepared s.ready_queue others p (prepared-Circle circle) all_spread
            enough in
        (
          record s { memory = linked; next_pid = (s.next_pid + 1) % 2 ^ 32 },
          rw (block, room, e),
          circle',
          all_spread,
          refl,
          fields p (omega arith) (omega arith) ∙ prepared_id,
          refl,
        )
