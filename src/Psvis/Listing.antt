-- ===== src/Psvis/Listing.antt =====
-- The rows of the listing of `dfs`, for `dfs` of mymodule.c.
use comp304_assignments.Prelude.{
  ℕ, ◌+◌, ◌≡◌, refl, subst, ◌⊎◌, inl, inr, Bool-cases, ==→eq, List, [], ◌∷◌, ◌==◌, if◌then◌else◌,
  arith, ◌∙◌, Bool, true, false, length, length-append,
}
use comp304_assignments.Prelude.Text.{ℤ, pos, negsuc}
use comp304_assignments.Psvis.Walk.{
  Thread, TaskInfo, Task, task, Tasks, childless, child, Row, thread_rows, dfs, dfs_children,
}
use comp304_assignments.Psvis.Order.{
  ParentsFirst, dfs-ParentsFirst, AreGrouped, IsGrouped, AllGrouped,
}
use mathlib.Core.List.{Mem, mem-cons_self, mem-cons_of_mem, mem-append_left, mem-append_right}

-- The threads other than the leader, whose number is the pid of the process.
unfoldable pub other_threads : ℕ → List Thread → ℕ
other_threads i [] = 0
other_threads i (h ∷ hs) = if h.thread_pid == i then other_threads i hs else other_threads i hs + 1

unfoldable mutual
  unfolding other_threads

  -- The processes of a tree and their threads other than the leaders.
  pub line_count : Task → ℕ
  line_count (task t children) = 1 + other_threads t.pid t.threads + line_counts children

  pub line_counts : Tasks → ℕ
  line_counts childless = 0
  line_counts (child c rest) = line_count c + line_counts rest

module _ (boot : ℕ) (rows : List Row) where
  -- Each thread but the leader has a row with the process as its parent.
  abbrev pub HasThreads : TaskInfo → List Thread → Type 0
  HasThreads t [] = Unit
  HasThreads t (h ∷ hs) =
      ((h.thread_pid ≡ t.pid)
        ⊎ Mem
            (record {
              row_ppid = pos t.pid;
              row_name = h.thread_comm;
              row_pid = h.thread_pid;
              row_start_time = boot + t.start_time;
            })
            rows)
      × HasThreads t hs

  unfoldable mutual
    -- The process, whose parent is `parent`, and all below it have their rows.
    pub HasRows : ℤ → Task → Type 0
    HasRows parent (task t children) =
        Mem
          (record {
            row_ppid = parent;
            row_name = t.comm;
            row_pid = t.pid;
            row_start_time = boot + t.start_time;
          })
          rows
        × HasThreads t t.threads
        × HasChildren t.pid children

    pub HasChildren : ℕ → Tasks → Type 0
    HasChildren parent childless = Unit
    HasChildren parent (child c rest) = HasRows (pos parent) c × HasChildren parent rest

module _ (boot : ℕ) where
  thread_rows-HasThreads :
      (rows : List Row) (t : TaskInfo) (hs : List Thread)
      → AreGrouped t.pid hs
      → ((r : Row) → Mem r (thread_rows boot t hs) → Mem r rows)
      → HasThreads boot rows t hs
  unfolding thread_rows
  thread_rows-HasThreads rows t [] g sub = tt
  thread_rows-HasThreads rows t (h ∷ hs) (e, g) sub =
      by_cases (h.thread_pid == h.thread_tgid) (==→eq h.thread_pid h.thread_tgid) sub
        (thread_rows-HasThreads rows t hs g)
    where
      by_cases :
          (b : Bool)
          → (b ≡ true → h.thread_pid ≡ h.thread_tgid)
          → ((r : Row)
              → Mem r (
                  if b
                  then thread_rows boot t hs
                  else record {
                    row_ppid = pos h.thread_tgid;
                    row_name = h.thread_comm;
                    row_pid = h.thread_pid;
                    row_start_time = boot + t.start_time;
                  }
                    ∷ thread_rows boot t hs)
              → Mem r rows)
          → (((r : Row) → Mem r (thread_rows boot t hs) → Mem r rows) → HasThreads boot rows t hs)
          → HasThreads boot rows t (h ∷ hs)
      by_cases true leader sub later = (inl (leader refl ∙ e), later sub)
      by_cases false leader sub later = (
        inr (
            subst
              (λ i.
                Mem
                  (record {
                    row_ppid = pos i;
                    row_name = h.thread_comm;
                    row_pid = h.thread_pid;
                    row_start_time = boot + t.start_time;
                  })
                  rows)
              e (sub _ mem-cons_self)),
        later (λ r m. sub r (mem-cons_of_mem _ m)),
      )

  mutual
    unfolding dfs HasRows HasChildren IsGrouped AllGrouped

    walk-HasRows :
        (rows : List Row) (t : Task) (parent : ℤ)
        → IsGrouped t
        → ((r : Row) → Mem r (dfs boot t parent) → Mem r rows)
        → HasRows boot rows parent t
    walk-HasRows rows (task t children) parent (g, gs) sub = (
      sub _ mem-cons_self,
      thread_rows-HasThreads rows t t.threads g
          (λ r m. sub r (mem-cons_of_mem _ (mem-append_left (dfs_children boot children t.pid) m))),
      children-HasChildren rows children t.pid gs
          (λ r m. sub r (mem-cons_of_mem _ (mem-append_right (thread_rows boot t t.threads) m))),
    )

    children-HasChildren :
        (rows : List Row) (cs : Tasks) (parent : ℕ)
        → AllGrouped cs
        → ((r : Row) → Mem r (dfs_children boot cs parent) → Mem r rows)
        → HasChildren boot rows parent cs
    children-HasChildren rows childless parent g sub = tt
    children-HasChildren rows (child c rest) parent (g, gs) sub = (
      walk-HasRows rows c (pos parent) g
          (λ r m. sub r (mem-append_left (dfs_children boot rest parent) m)),
      children-HasChildren rows rest parent gs
          (λ r m. sub r (mem-append_right (dfs boot c (pos parent)) m)),
    )

  length-thread_rows :
      (t : TaskInfo) (hs : List Thread)
      → AreGrouped t.pid hs
      → length (thread_rows boot t hs) ≡ other_threads t.pid hs
  unfolding thread_rows other_threads
  length-thread_rows t [] g = refl
  length-thread_rows t (h ∷ hs) (e, g) = rw e (elim (Bool-cases (h.thread_pid == t.pid)) [
    | inl y ↦ rw y (length-thread_rows t hs g)
    | inr n ↦ rw n (omega (arith, length-thread_rows t hs g))
  ])

  mutual
    unfolding dfs line_count line_counts IsGrouped AllGrouped

    length-walk : (t : Task) (parent : ℤ) → IsGrouped t → length (dfs boot t parent) ≡ line_count t
    length-walk (task t children) parent (g, gs) = omega (
      arith,
      length-append (thread_rows boot t t.threads) (dfs_children boot children t.pid),
      length-thread_rows t t.threads g,
      length-children children t.pid gs,
    )

    length-children :
        (cs : Tasks) (parent : ℕ)
        → AllGrouped cs
        → length (dfs_children boot cs parent) ≡ line_counts cs
    length-children childless parent g = refl
    length-children (child c rest) parent (g, gs) = omega (
      arith,
      length-append (dfs boot c (pos parent)) (dfs_children boot rest parent),
      length-walk c (pos parent) g,
      length-children rest parent gs,
    )

  -- Where every thread's group is the pid of its process, the listing of `dfs` has a row for each
  -- process of the tree, with the pid of the process whose child it is (-1 at the root) as its
  -- parent, and one for each thread but the leaders, with its process as its parent; it has as many
  -- rows as there are such processes and threads; and the parent that a row names is -1 or the pid
  -- of a row further up.
  pub dfs-HasRows :
      (t : Task)
      → IsGrouped t
      → ParentsFirst (negsuc 0 ∷ []) (dfs boot t (negsuc 0))
        × HasRows boot (dfs boot t (negsuc 0)) (negsuc 0) t
        × (length (dfs boot t (negsuc 0)) ≡ line_count t)
  dfs-HasRows t g = (
    dfs-ParentsFirst boot t g,
    walk-HasRows (dfs boot t (negsuc 0)) t (negsuc 0) g (λ r m. m),
    length-walk t (negsuc 0) g,
  )
