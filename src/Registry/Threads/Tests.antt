-- ===== src/Registry/Threads/Tests.antt =====
-- src/client_registry.c: a thread registers its client while another one waits for the mutex.
use bourse_server.Base.{ℕ, ◌+◌, ◌≤◌, ◌<◌, refl, ◌≢◌, ◌⊎◌, ℤ, pos, minus_one, move, arith}
use bourse_server.Registry.Defs.{creg_init, search_for_empty_slot, search_from}
use bourse_server.Registry.Tests.{posix_sems}
use bourse_server.Registry.Threads.Steps.{
  Shared, pick, Reach, here, later, take_slot, lock_register, search_free, store, count_in,
  mark_first,
}
use bourse_server.Registry.Threads.Order.{IsOrderly}
use bourse_server.Registry.Threads.Safety.{all_connected, WaitsFor, Reach-IsOrderly, Reach-WaitsFor}
use bourse_server.Registry.Threads.Progress.{Next, IsOver, Reach-progress, steps}
use bourse_server.Registry.Defs.{creg_wait_for_empty}
use bourse_server.Base.{◌≡◌, done, ◌≡◌}
use bourse_server.Registry.Threads.Drain.{Reach-IsOver}

-- Thread `i` serves descriptor 5 + i.
abbrev descriptors : ℕ → ℤ
descriptors i = pos (5 + i)

descriptors_lem : (i : ℕ) → i < 2 → descriptors i ≢ minus_one
descriptors_lem i lt e = cc

two_inside : (s : Shared) × Reach 2 descriptors (all_connected posix_sems) s
unfolding creg_init search_for_empty_slot search_from move
two_inside = (
  _,
  later
      (later
        (later
          (later
            (later
              (later (later here (pick 0 (omega arith) (take_slot {k = 1023} refl)))
                (pick 1 (omega arith) (take_slot {k = 1022} refl)))
              (pick 0 (omega arith) (lock_register {k = 0} refl)))
            (pick 0 (omega arith) (search_free {i = 0} refl)))
          (pick 0 (omega arith) store))
        (pick 0 (omega arith) count_in))
      (pick 0 (omega arith) (mark_first {k = 0} refl refl)),
)

Reach-IsOrderly_example : IsOrderly 2 descriptors two_inside.0
Reach-IsOrderly_example = Reach-IsOrderly posix_sems 2 descriptors descriptors_lem two_inside.1

Reach-WaitsFor_example : WaitsFor posix_sems 2 descriptors two_inside.0
Reach-WaitsFor_example = Reach-WaitsFor posix_sems 2 descriptors descriptors_lem two_inside.1

Reach-progress_example : Next 2 descriptors two_inside.0 ⊎ IsOver 2 two_inside.0
Reach-progress_example = Reach-progress posix_sems 2 descriptors descriptors_lem two_inside.1

Reach-IsOver_example :
    (t : Shared) × (q : Reach 2 descriptors two_inside.0 t) × (steps q ≤ 32)
    × IsOver 2 t
    × (creg_wait_for_empty posix_sems t.registry ≡ done tt (record t.registry { count_mutex = 0 }))
Reach-IsOver_example = Reach-IsOver posix_sems 2 descriptors descriptors_lem two_inside.1
