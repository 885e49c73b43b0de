-- ===== src/Psvis/Walk.antt =====
-- `dfs`, `simple_init` and `simple_exit` of mymodule.c.
use comp304_assignments.Prelude.{
  ℕ, ◌+◌, Option, none, some, List, [], ◌∷◌, ◌++◌, ◌==◌, if◌then◌else◌, map,
}
use comp304_assignments.Prelude.Text.{Text, codes, to_text, ℤ, pos, negsuc, show_int}

-- A thread as `task_pid_nr`, `task_tgid_nr` and `get_task_comm` see it.
pub record Thread : Type 0 where
  pub thread_pid : ℕ
  pub thread_tgid : ℕ
  pub thread_comm : Text

-- What the module reads of a `struct task_struct`, less its children.
pub record TaskInfo : Type 0 where
  pub pid : ℕ
  pub comm : Text
  pub start_time : ℕ
  pub threads : List Thread

-- The tree of processes, children in the order of the kernel's list.
mutual
  pub data Task : Type 0 where
    task : TaskInfo → Tasks → Task

  pub data Tasks : Type 0 where
    childless : Tasks
    child : Task → Tasks → Tasks

-- A line of the listing.
pub record Row : Type 0 where
  pub row_ppid : ℤ
  pub row_name : Text
  pub row_pid : ℕ
  pub row_start_time : ℕ

unfoldable pub row_text : Row → Text
unfolding show_int to_text
row_text r =
    codes "{\"ppid\":"
    ++ (show_int r.row_ppid
        ++ (codes ",\"name\": \""
            ++ (r.row_name
                ++ (codes "\", \"pid\": "
                    ++ (to_text r.row_pid
                        ++ (codes ", \"start_time\": "
                            ++ (to_text r.row_start_time ++ codes "}\n")))))))

-- `boot` is `ktime_get_real() - ktime_get_ns()`, the time at which the monotonic clock was 0.
module _ (boot : ℕ) where
  -- The loop over the threads, less the leader. A row has the start of the process, not the thread.
  unfoldable pub thread_rows : TaskInfo → List Thread → List Row
  thread_rows t [] = []
  thread_rows t (h ∷ hs) =
      let rest = thread_rows t hs in
      if h.thread_pid == h.thread_tgid
      then rest
      else record {
        row_ppid = pos h.thread_tgid;
        row_name = h.thread_comm;
        row_pid = h.thread_pid;
        row_start_time = boot + t.start_time;
      }
        ∷ rest

  abbrev task_row : ℤ → TaskInfo → Row
  task_row parent_pid t = record {
    row_ppid = parent_pid;
    row_name = t.comm;
    row_pid = t.pid;
    row_start_time = boot + t.start_time;
  }

  unfoldable mutual
    unfolding thread_rows

    pub dfs : Task → ℤ → List Row
    dfs (task t children) parent_pid =
        task_row parent_pid t ∷ (thread_rows t t.threads ++ dfs_children children t.pid)

    pub dfs_children : Tasks → ℕ → List Row
    dfs_children childless parent_pid = []
    dfs_children (child c rest) parent_pid = dfs c (pos parent_pid) ++ dfs_children rest parent_pid

  -- The messages and the result of the module's start; `find` is `get_pid_task(find_get_pid(…))`.
  unfoldable pub simple_init : (find : ℕ → Option Task) (my_pid : ℕ) → List Text × ℤ
  unfolding dfs row_text
  simple_init find my_pid = elim (find my_pid) [
    | none ↦ (
      codes "Inserting psvis module\n"
          ∷ codes "System tries to find task with given PID\n"
          ∷ codes "No task for given pid\n"
          ∷ [],
      negsuc 0,
    )
    | some t ↦ (
      codes "Inserting psvis module\n"
          ∷ codes "System tries to find task with given PID\n"
          ∷ codes "Task is found, listing starts\n"
          ∷ (map row_text (dfs t (negsuc 0)) ++ codes "Listing finished\n" ∷ []),
      pos 0,
    )
  ]
