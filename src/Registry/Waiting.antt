-- ===== src/Registry/Waiting.antt =====
-- src/client_registry.c: `creg_wait_for_empty` and `creg_shutdown_all`, and what they do to the
-- calls that come after them.
use mathlib.Core.List.{Mem, Mem-prop, Perm, mem-cons_self, mem-cons, mem-cons_of_mem}
use mathlib.Core.Logic.Or
use bourse_server.Base.{
  ◌+◌, ◌-◌, ◌<◌, ◌≡◌, refl, ap, inl, inr, List, [], ◌∷◌, ◌++◌, ℤ, pos, minus_one, int_eq, length,
  arith, if◌then◌else◌, ◌==◌, ◌>>◌, ◌∙◌, ◌≢◌, int_eq_iff, Bool-cases, done, blocked,
}
use bourse_server.Registry.Defs.{
  Semaphores, ClientRegistry, creg_register, creg_wait_for_empty, is_free, search_for_empty_slot,
}
use bourse_server.Registry.Contents.{
  registered, search_from-cases, set-split, length-registered_full,
}
use bourse_server.Registry.Invariant.{Inv, clients, register-perm}
use bourse_server.Registry.Defs.{creg_shutdown_all, shutdown_from}

-- Every entry of the array is shut down, in order.
shutdown_from-all : (fds : List ℤ) → shutdown_from fds (length fds) ≡ fds
shutdown_from-all [] = refl
shutdown_from-all (fd ∷ fds) = ap (◌∷◌ fd) (shutdown_from-all fds)

pub mem-registered : (fds : List ℤ) (fd : ℤ) → Mem fd (registered fds) → Mem fd fds
mem-registered [] fd m = m
mem-registered (x ∷ fds) fd m = elim (Bool-cases (int_eq x minus_one)) [
  | inl free ↦ mem-cons_of_mem _ (mem-registered fds fd (rw free at m))
  | inr used ↦
      Or.elim Mem-prop (mem-cons.0 (rw used at m)) (λ e. rw e mem-cons_self)
        (λ later. mem-cons_of_mem _ (mem-registered fds fd later))
]

module _ (sems : Semaphores) where
  open sems use {p, v, p-zero, p-suc, v_lem}

  -- In a registry that is in order, the wait returns if nobody is registered, and has then
  -- taken `count_mutex`; while somebody is, it waits and has changed nothing.
  pub creg_wait_for_empty_lem :
      (cr : ClientRegistry)
      → Inv cr
      → creg_wait_for_empty sems cr
        ≡ (if clients cr == 0 then done tt (record cr { count_mutex = 0 }) else blocked cr)
  unfolding creg_wait_for_empty
  creg_wait_for_empty_lem cr inv = elim (Bool-cases (clients cr == 0)) [
    | inl none_left ↦ rw none_left (ground (arith, p-suc 0))
    | inr some_left ↦ rw some_left (ground (arith, p-zero))
  ]

  -- A thread that waits for an empty registry, and then registers a client, in a registry that is
  -- in order and empty, with at least one slot, and a descriptor other than -1: the wait returns,
  -- and the registration then waits, having taken a slot and stored the descriptor in the array,
  -- and with the mutex, which it holds.
  pub register-after-wait :
      (cr : ClientRegistry) (fd : ℤ)
      → fd ≢ minus_one
      → Inv cr
      → clients cr ≡ 0
      → 0 < cr.n
      → (cr' : ClientRegistry) × ((creg_wait_for_empty sems >> creg_register sems fd) cr
          ≡ blocked cr')
        × (cr'.mutex ≡ 0)
        × (cr'.count ≡ pos 1)
        × (cr'.slots + 1 ≡ cr.slots)
        × Perm (registered cr'.fds) (fd ∷ registered cr.fds)
  unfolding creg_wait_for_empty creg_register search_for_empty_slot
  register-after-wait cr fd real inv h pos_n =
      elim (search_from-cases cr.fds cr.n 0 is_free (omega arith)) [
        | inl (e, none_free) ↦ absurd (omega (arith, length-registered_full cr.fds none_free))
        | inr (pre, x, rest, split, found, free) ↦
            let split' : cr.fds ≡ pre ++ minus_one ∷ rest =
              split ∙ ap (λ y. pre ++ y ∷ rest) ((int_eq_iff x minus_one).0 free) in
            (
              record cr {
                fds = pre ++ fd ∷ rest;
                count = pos 1;
                count_mutex = 0;
                mutex = 0;
                slots = cr.slots - 1;
              },
              ground (arith, p-suc (cr.slots - 1), p-suc 0, p-zero, set-split pre rest x fd),
              refl,
              refl,
              omega arith,
              register-perm cr.fds pre rest fd real split',
            )
      ]

  -- The shutdown returns the whole array.
  pub creg_shutdown_all-done :
      (cr : ClientRegistry) → Inv cr → creg_shutdown_all sems cr ≡ done cr.fds cr
  unfolding creg_shutdown_all
  creg_shutdown_all-done cr inv = ground (arith, p-suc 0, v_lem 0, shutdown_from-all cr.fds)

  -- In a registry that is in order, the shutdown reaches every registered descriptor, and
  -- leaves the registry as it is.
  pub creg_shutdown_all_lem :
      (cr : ClientRegistry) (fd : ℤ)
      → Inv cr
      → Mem fd (registered cr.fds)
      → (shut : List ℤ) × (creg_shutdown_all sems cr ≡ done shut cr) × Mem fd shut
  creg_shutdown_all_lem cr fd inv member =
      (cr.fds, creg_shutdown_all-done cr inv, mem-registered cr.fds fd member)
