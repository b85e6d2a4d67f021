-- ===== src/Registry/Tests.antt =====
-- src/client_registry.c: a registry of two entries.
use mathlib.Core.List.Perm
use mathlib.Core.List.{Perm}
use bourse_server.Registry.Contents.{registered}
use bourse_server.Base.{
  ℕ, zero, suc, ◌+◌, ◌≡◌, refl, Option, some, none, [], ◌∷◌, pos, minus_one, int_eq, int_eq_iff,
  done, blocked, arith, ◌>>◌, ◌≢◌,
}
use bourse_server.Registry.Defs.{
  Semaphores, ClientRegistry, creg_register, creg_unregister, creg_wait_for_empty, search_from,
  creg_shutdown_all,
}
use bourse_server.Registry.Invariant.{Inv}
use bourse_server.Registry.Unregister.{creg_unregister_absent}
use bourse_server.Registry.Waiting.{register-after-wait}
use bourse_server.Registry.Draining.{leave, creg_wait_for_empty-returns}
use bourse_server.Registry.History.{register, unregister, Allowed, Refines, run-Refines}

abbrev pub sem_wait : ℕ → Option ℕ
sem_wait zero = none
sem_wait (suc n) = some n

abbrev pub posix_sems : Semaphores
posix_sems = record {
  sem_init = λ n. n;
  p = sem_wait;
  v = λ n. suc n;
  sem_init_lem = λ n. refl;
  p-zero = refl;
  p-suc = λ n. refl;
  v_lem = λ n. refl;
}

-- Descriptor 5 is registered.
abbrev pub one_client : ClientRegistry
one_client = record {
  fds = minus_one ∷ pos 5 ∷ [];
  n = 2;
  count = pos 1;
  count_mutex = 0;
  mutex = 1;
  items = 1;
  slots = 1;
}

pub one_client-Inv : Inv one_client
one_client-Inv = record {
  size = refl;
  counted = refl;
  free = refl;
  full = refl;
  unlocked = refl;
  empty = refl;
}

abbrev two_clients : ClientRegistry
two_clients = record {
  fds = pos 6 ∷ pos 5 ∷ [];
  n = 2;
  count = pos 2;
  count_mutex = 0;
  mutex = 1;
  items = 2;
  slots = 0;
}

two_clients-Inv : Inv two_clients
two_clients-Inv = record {
  size = refl;
  counted = refl;
  free = refl;
  full = refl;
  unlocked = refl;
  empty = refl;
}

abbrev pub no_clients : ClientRegistry
no_clients = record {
  fds = minus_one ∷ minus_one ∷ [];
  n = 2;
  count = pos 0;
  count_mutex = 1;
  mutex = 1;
  items = 0;
  slots = 2;
}

pub no_clients-Inv : Inv no_clients
no_clients-Inv = record {
  size = refl;
  counted = refl;
  free = refl;
  full = refl;
  unlocked = refl;
  empty = refl;
}

pub real : (n : ℕ) → pos n ≢ minus_one
real n = ground (arith, int_eq_iff (pos n) minus_one)

not_there : search_from one_client.fds 2 0 (λ x. int_eq x (pos 7)) ≡ minus_one
unfolding search_from
not_there = refl

creg_unregister_absent_example :
    (creg_unregister posix_sems (pos 7) one_client
      ≡ done minus_one (record one_client { items = 0; slots = 2 }))
    × ¬ Inv (record one_client { items = 0; slots = 2 })
creg_unregister_absent_example =
    creg_unregister_absent posix_sems one_client (pos 7) one_client-Inv not_there (omega arith)

register-after-wait_example :
    (cr' : ClientRegistry) × ((creg_wait_for_empty posix_sems >> creg_register posix_sems (pos 5))
        no_clients
      ≡ blocked cr')
    × (cr'.mutex ≡ 0)
    × (cr'.count ≡ pos 1)
    × (cr'.slots + 1 ≡ 2)
    × Perm (registered cr'.fds) (pos 5 ∷ [])
register-after-wait_example =
    register-after-wait posix_sems no_clients (pos 5) (real 5) no_clients-Inv refl (omega arith)

run-Refines_example :
    Refines posix_sems one_client (register (pos 6) ∷ unregister (pos 5) ∷ []) (pos 6 ∷ [])
run-Refines_example = run-Refines posix_sems one_client refl one_client-Inv (Perm.refl _) (
    Allowed.connect (pos 6) (real 6) (omega arith) (
      Allowed.disconnect (pos 5) (real 5) (Perm.swap (pos 5) (pos 6) [])
        (Allowed.finish (Perm.refl _))))

creg_wait_for_empty-returns_example :
    (cr : ClientRegistry) × ((creg_shutdown_all posix_sems
          >> (leave (creg_unregister posix_sems) (pos 5 ∷ pos 6 ∷ [])
              >> creg_wait_for_empty posix_sems))
        two_clients
      ≡ done tt cr)
creg_wait_for_empty-returns_example =
    creg_wait_for_empty-returns posix_sems two_clients (pos 5 ∷ pos 6 ∷ []) two_clients-Inv
      (real 5, (real 6, tt)) (Perm.swap (pos 5) (pos 6) [])
