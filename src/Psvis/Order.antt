-- ===== src/Psvis/Order.antt =====
-- Each row comes behind the row of its parent.
use comp304_assignments.Prelude.{
  ℕ, ◌+◌, ◌≡◌, sym, subst, Bool, true, false, List, [], ◌∷◌, ◌++◌, ◌==◌, if◌then◌else◌,
}
use comp304_assignments.Prelude.Text.{ℤ, pos, negsuc}
use comp304_assignments.Psvis.Walk.{
  Thread, TaskInfo, Task, task, Tasks, childless, child, Row, thread_rows, dfs, dfs_children,
}
use mathlib.Core.List.{Mem, mem-cons_self, mem-cons_of_mem}

-- The parent of a row is among the pids `seen` before it, or those of the rows before it.
abbrev pub ParentsFirst : List ℤ → List Row → Type 0
ParentsFirst seen [] = Unit
ParentsFirst seen (r ∷ rs) = Mem r.row_ppid seen × ParentsFirst (pos r.row_pid ∷ seen) rs

-- The threads of each process have its pid as their group.
abbrev pub AreGrouped : ℕ → List Thread → Type 0
AreGrouped i [] = Unit
AreGrouped i (h ∷ hs) = (h.thread_tgid ≡ i) × AreGrouped i hs

unfoldable mutual
  pub IsGrouped : Task → Type 0
  IsGrouped (task t children) = AreGrouped t.pid t.threads × AllGrouped children

  pub AllGrouped : Tasks → Type 0
  AllGrouped childless = Unit
  AllGrouped (child c rest) = IsGrouped c × AllGrouped rest

-- The pids seen behind some rows.
abbrev seen_after : List ℤ → List Row → List ℤ
seen_after seen [] = seen
seen_after seen (r ∷ rs) = seen_after (pos r.row_pid ∷ seen) rs

mem-seen_after : (a : ℤ) (rs : List Row) (seen : List ℤ) → Mem a seen → Mem a (seen_after seen rs)
mem-seen_after a [] seen h = h
mem-seen_after a (r ∷ rs) seen h =
    mem-seen_after a rs (pos r.row_pid ∷ seen) (mem-cons_of_mem (pos r.row_pid) h)

append-ParentsFirst :
    (xs ys : List Row) (seen : List ℤ)
    → ParentsFirst seen xs
    → ParentsFirst (seen_after seen xs) ys
    → ParentsFirst seen (xs ++ ys)
append-ParentsFirst [] ys seen f g = g
append-ParentsFirst (x ∷ xs) ys seen (m, f) g =
    (m, append-ParentsFirst xs ys (pos x.row_pid ∷ seen) f g)

module _ (boot : ℕ) where
  thread_rows-ParentsFirst :
      (t : TaskInfo) (hs : List Thread) (seen : List ℤ)
      → AreGrouped t.pid hs
      → Mem (pos t.pid) seen
      → ParentsFirst seen (thread_rows boot t hs)
  unfolding thread_rows
  thread_rows-ParentsFirst t [] seen g m = tt
  thread_rows-ParentsFirst t (h ∷ hs) seen (e, g) m =
      by_cases (h.thread_pid == h.thread_tgid) (thread_rows-ParentsFirst t hs seen g m) (
        thread_rows-ParentsFirst t hs (pos h.thread_pid ∷ seen) g
          (mem-cons_of_mem (pos h.thread_pid) m))
    where
      by_cases :
          (b : Bool)
          → ParentsFirst seen (thread_rows boot t hs)
          → ParentsFirst (pos h.thread_pid ∷ seen) (thread_rows boot t hs)
          → ParentsFirst seen (
              if b
              then thread_rows boot t hs
              else record {
                row_ppid = pos h.thread_tgid;
                row_name = h.thread_comm;
                row_pid = h.thread_pid;
                row_start_time = boot + t.start_time;
              }
                ∷ thread_rows boot t hs)
      by_cases true skipped listed = skipped
      by_cases false skipped listed = (subst (λ i. Mem (pos i) seen) (sym e) m, listed)

  mutual
    unfolding dfs IsGrouped AllGrouped

    walk-ParentsFirst :
        (t : Task) (parent : ℤ) (seen : List ℤ)
        → IsGrouped t
        → Mem parent seen
        → ParentsFirst seen (dfs boot t parent)
    walk-ParentsFirst (task t children) parent seen (g, gs) m = (
      m,
      append-ParentsFirst (thread_rows boot t t.threads) (dfs_children boot children t.pid)
          (pos t.pid ∷ seen)
          (thread_rows-ParentsFirst t t.threads (pos t.pid ∷ seen) g mem-cons_self)
          (children-ParentsFirst children t.pid
            (seen_after (pos t.pid ∷ seen) (thread_rows boot t t.threads)) gs
            (mem-seen_after (pos t.pid) (thread_rows boot t t.threads) (pos t.pid ∷ seen)
              mem-cons_self)),
    )

    children-ParentsFirst :
        (cs : Tasks) (parent : ℕ) (seen : List ℤ)
        → AllGrouped cs
        → Mem (pos parent) seen
        → ParentsFirst seen (dfs_children boot cs parent)
    children-ParentsFirst childless parent seen g m = tt
    children-ParentsFirst (child c rest) parent seen (g, gs) m =
        append-ParentsFirst (dfs boot c (pos parent)) (dfs_children boot rest parent) seen
          (walk-ParentsFirst c (pos parent) seen g m)
          (children-ParentsFirst rest parent (seen_after seen (dfs boot c (pos parent))) gs
            (mem-seen_after (pos parent) (dfs boot c (pos parent)) seen m))

  -- Where every thread's group is the pid of its process, the parent that a row of the listing of
  -- `dfs` names is -1 or the pid of a row further up.
  pub dfs-ParentsFirst :
      (t : Task) → IsGrouped t → ParentsFirst (negsuc 0 ∷ []) (dfs boot t (negsuc 0))
  dfs-ParentsFirst t g = walk-ParentsFirst t (negsuc 0) (negsuc 0 ∷ []) g mem-cons_self
