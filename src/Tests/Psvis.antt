-- ===== src/Tests/Psvis.antt =====
-- The theorem about the listing at a concrete tree.
use comp304_assignments.Prelude.{◌≡◌, refl, [], ◌∷◌, length}
use comp304_assignments.Prelude.Text.{codes, negsuc}
use comp304_assignments.Psvis.Walk.{Task, task, childless, child, dfs}
use comp304_assignments.Psvis.Order.{ParentsFirst, IsGrouped, AllGrouped}
use comp304_assignments.Psvis.Listing.{line_count, HasRows, dfs-HasRows}

-- A shell with two threads, and a child.
abbrev shell : Task
shell =
    task
      (record {
        pid = 7;
        comm = codes "sh";
        start_time = 3;
        threads =
            record { thread_pid = 7; thread_tgid = 7; thread_comm = codes "sh" }
            ∷ record { thread_pid = 8; thread_tgid = 7; thread_comm = codes "sh" }
            ∷ [];
      })
      (child (task (record { pid = 9; comm = codes "ls"; start_time = 5; threads = [] }) childless)
        childless)

shell-IsGrouped : IsGrouped shell
unfolding IsGrouped AllGrouped
shell-IsGrouped = ((refl, (refl, tt)), ((tt, tt), tt))

dfs-HasRows_example :
    ParentsFirst (negsuc 0 ∷ []) (dfs 1000 shell (negsuc 0))
    × HasRows 1000 (dfs 1000 shell (negsuc 0)) (negsuc 0) shell
    × (length (dfs 1000 shell (negsuc 0)) ≡ line_count shell)
dfs-HasRows_example = dfs-HasRows 1000 shell shell-IsGrouped
