-- ===== src/Kernel/Task/Circle.antt =====
-- The circular list of tasks of kernel/task.c.
use black_hole_os.Prelude.{
  ℕ, zero, suc, ◌+◌, ◌<◌, ◌≤◌, ◌≡◌, ◌≢◌, ◌⊎◌, refl, sym, ◌∙◌, arith, true, false, some, List, [],
  ◌∷◌, ◌++◌, length, All, ◌==◌,
}
use black_hole_os.Kernel.Memory.{Mem, Ptr, store, max_rounds}
use black_hole_os.Kernel.Memory.Store.{store_self, store_ne}
use black_hole_os.Kernel.Task.{next_of, set_next_task, find_tail, link_task}

-- The tasks from one on, by their `next` pointers, up to one that points to `end`.
abbrev pub Links : Mem → Ptr → List Ptr → Ptr → Type 0
Links m t [] end = next_of m t ≡ end
Links m t (u ∷ us) end = (next_of m t ≡ u) × Links m u us end

-- A circle: the last task points to the first.
abbrev pub Circle : Mem → Ptr → List Ptr → Type 0
Circle m first others = Links m first others first

-- Two tasks do not overlap.
abbrev pub Apart : Ptr → Ptr → Type 0
Apart t u = (t + 24 ≤ u) ⊎ (u + 24 ≤ t)

abbrev pub Spread : List Ptr → Type 0
Spread [] = Unit
Spread (t ∷ ts) = All (Apart t) ts × Spread ts

-- A word that is no `next` pointer of a task may change.
pub Links-store :
    (m : Mem) (q v : ℕ) (t : Ptr) (us : List Ptr) (end : Ptr)
    → q ≢ t + 20
    → All (λ u. q ≢ u + 20) us
    → Links m t us end
    → Links (store m q v) t us end
Links-store m q v t [] end h hs l = store_ne m q v (t + 20) (λ e. h (sym e)) ∙ l
Links-store m q v t (u ∷ us) end h (hu, hs) (e, l) =
    (store_ne m q v (t + 20) (λ e'. h (sym e')) ∙ e, Links-store m q v u us end hu hs l)

last_of : Ptr → List Ptr → Ptr
last_of t [] = t
last_of t (u ∷ us) = last_of u us

find_tail-last :
    (fuel : ℕ) (m : Mem) (ready t : Ptr) (us : List Ptr)
    → Links m t us ready
    → All (Apart ready) us
    → length us < fuel
    → find_tail fuel m ready t ≡ some (last_of t us)
unfolding find_tail last_of
find_tail-last zero m ready t us l others enough = absurd (omega arith)
find_tail-last (suc fuel) m ready t [] l others enough =
    let here : (next_of m t == ready) ≡ true = ground arith in rw here
find_tail-last (suc fuel) m ready t (u ∷ us) (e, l) (ne, others) enough =
    let later : (next_of m t == ready) ≡ false = ground arith in
    rw (later, e) (find_tail-last fuel m ready u us l others (omega arith))

Apart-last_of : (t u : Ptr) (us : List Ptr) → All (Apart t) (u ∷ us) → Apart t (last_of u us)
unfolding last_of
Apart-last_of t u [] (h, hs) = h
Apart-last_of t u (v ∷ us) (h, hs) = Apart-last_of t v us hs

-- Writing the `next` pointer of the last task makes the list longer.
Links-extend :
    (m : Mem) (t : Ptr) (us : List Ptr) (end new end' : Ptr)
    → Links m t us end
    → next_of m new ≡ end'
    → Spread (new ∷ t ∷ us)
    → Links (set_next_task m (last_of t us) new) t (us ++ new ∷ []) end'
unfolding last_of
Links-extend m t [] end new end' l e ((apart, hs), rest) =
    (store_self m (t + 20) new, store_ne m (t + 20) new (new + 20) (ground arith) ∙ e)
Links-extend m t (u ∷ us) end new end' (e0, l) e ((apart, hs), (ht, rest)) =
    let away = Apart-last_of t u us ht in
    (
      store_ne m (last_of u us + 20) new (t + 20) (ground arith) ∙ e0,
      Links-extend m u us end new end' l e (hs, rest),
    )

next-Apart : (new : Ptr) (us : List Ptr) → All (Apart new) us → All (λ u. new + 20 ≢ u + 20) us
next-Apart new [] h = tt
next-Apart new (u ∷ us) (h, hs) = (ground arith, next-Apart new us hs)

-- `create_kernel_thread` links a new task: in a circle of tasks that do not overlap, fewer than the
-- heap could hold, the new task becomes the last, the order of the others stays, and so do the
-- other fields of the new task.
pub link_task-Circle :
    (m : Mem) (ready : Ptr) (others : List Ptr) (new : Ptr)
    → Circle m ready others
    → Spread (new ∷ ready ∷ others)
    → length others < max_rounds
    → (m' : Mem) × (link_task m ready new ≡ some m')
      × Circle m' ready (others ++ new ∷ [])
      × ((q : Ptr) → new ≤ q → q < new + 20 → m' q ≡ m q)
unfolding link_task
link_task-Circle m ready others new circle ((apart, away), (hr, spread)) enough =
    let m1 = set_next_task m new ready in
    let kept : Circle m1 ready others =
      Links-store m (new + 20) ready ready others ready (ground arith) (next-Apart new others away)
        circle in
    let tail = find_tail-last max_rounds m1 ready ready others kept hr enough in
    let far = Apart-last_of new ready others (apart, away) in
    (
      set_next_task m1 (last_of ready others) new,
      rw tail refl,
      Links-extend m1 ready others ready new ready kept (store_self m (new + 20) ready)
          ((apart, away), (hr, spread)),
      λ q low high.
          store_ne m1 (last_of ready others + 20) new q (ground arith)
          ∙ store_ne m (new + 20) ready q (ground arith),
    )
