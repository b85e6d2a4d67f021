-- ===== src/Registry/Draining.antt =====
-- The shutdown of src/main.c, by the interface of include/client_registry.h.
use mathlib.Core.List.{Perm, mem-cons_self}
use mathlib.Core.List.Perm
use bourse_server.Base.{◌≡◌, ◌≢◌, List, [], ◌∷◌, ℤ, minus_one, length, M, done, refl, ◌>>◌, pure}
use bourse_server.Registry.Defs.{
  Semaphores, ClientRegistry, creg_unregister, creg_wait_for_empty, creg_shutdown_all,
}
use bourse_server.Registry.Contents.{registered}
use bourse_server.Registry.Invariant.{Inv}
use bourse_server.Registry.Interface.{RegistryModule, client_registry}
use bourse_server.Registry.History.{length-perm}

-- The service threads end, in this order.
unfoldable pub leave : {S : Type 0} → (ℤ → M S ℤ) → List ℤ → M S (Unit {0})
leave unregister [] = pure tt
leave unregister (fd ∷ fds) = unregister fd >> leave unregister fds

abbrev pub AllReal : List ℤ → Type 0
AllReal [] = Unit {0}
AllReal (fd ∷ fds) = (fd ≢ minus_one) × AllReal fds

module _ (m : RegistryModule) where
  open m use {
    Registry, IsReady, connected, unregister, unregister_lem, wait_for_empty, wait_for_empty_lem,
    shutdown_all, shutdown_all_lem,
  }

  leave_lem :
      (fds : List ℤ) (r : Registry)
      → IsReady r
      → AllReal fds
      → Perm (connected r) fds
      → (r' : Registry) × (leave unregister fds r ≡ done tt r')
        × IsReady r'
        × (length (connected r') ≡ 0)
  unfolding leave
  leave_lem [] r ready real same = (r, refl, ready, length-perm same)
  leave_lem (fd ∷ fds) r ready real same =
      let (r₁, gone, ready₁, kept, shrunk) =
        unregister_lem r fd ready real.0 ((Perm.mem_iff same).1 mem-cons_self) in
      let (r₂, left, ready₂, empty) =
        leave_lem fds r₁ ready₁ real.1 (Perm.cons_inv (Perm.trans (Perm.symm shrunk) same)) in
      (r₂, rw (gone, left) refl, ready₂, empty)

  drain_lem :
      (fds : List ℤ) (r : Registry)
      → IsReady r
      → AllReal fds
      → Perm (connected r) fds
      → (r' : Registry) × ((shutdown_all >> (leave unregister fds >> wait_for_empty)) r
          ≡ done tt r')
  drain_lem fds r ready real same =
      let (shut, called, all_shut) = shutdown_all_lem r ready in
      let (r₁, left, ready₁, empty) = leave_lem fds r ready real same in
      let (r₂, waited) = wait_for_empty_lem r₁ ready₁ in (r₂, rw (called, left, waited, empty) refl)

module _ (sems : Semaphores) where
  -- In a registry that is in order, once the clients have been shut down and every one that was
  -- registered, none of them -1, has been removed, in whatever order, the wait for an empty
  -- registry returns; so do all the calls before it.
  pub creg_wait_for_empty-returns :
      (cr : ClientRegistry) (fds : List ℤ)
      → Inv cr
      → AllReal fds
      → Perm (registered cr.fds) fds
      → (cr' : ClientRegistry) × ((creg_shutdown_all sems
              >> (leave (creg_unregister sems) fds >> creg_wait_for_empty sems))
            cr
          ≡ done tt cr')
  creg_wait_for_empty-returns cr fds inv real same =
      drain_lem (client_registry sems) fds cr inv real same
