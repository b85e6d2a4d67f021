-- ===== src/Registry/Threads/Alone/Register.antt =====
-- src/client_registry.c: creg_register, by a thread that nobody interrupts.
use bourse_server.Base.{
  suc, ◌≡◌, inl, inr, Bool-cases, length, set, ℤ, pos, negsuc, int_eq, inc, M, pure, when, ◌>>◌,
}
use bourse_server.Registry.Defs.{
  Semaphores, ClientRegistry, Sem, wait, post, creg_register, search_for_empty_slot, is_free,
}
use bourse_server.Registry.Threads.Steps.{
  Counter, connected, has_slot, counted, joined, announcing, serving, refused, take_slot,
  lock_register, search_free, search_full, store, count_in, mark_first, mark_later, unlock_register,
  announce,
}
use bourse_server.Registry.Threads.Ranking.{search_result}
use bourse_server.Registry.Threads.Alone.{
  stay, go, EndsAt, first, wait-EndsAt, post-EndsAt, waits_slot, waits_register, waits_count,
}

-- Where a thread is behind the call, by its result.
abbrev pub after_register : ℤ → Counter
after_register (pos k) = serving
after_register (negsuc k) = refused

module _ (sems : Semaphores) (fd : ℤ) where
  -- What follows the test of the count.
  abbrev announced : M ClientRegistry ℤ
  announced = post sems Sem.mutex >> (post sems Sem.items >> pure (pos 0))

  announcing-EndsAt : (cr : ClientRegistry) → EndsAt fd cr joined after_register (announced cr)
  announcing-EndsAt cr =
      post-EndsAt sems fd after_register Sem.mutex cr joined announcing
        (post sems Sem.items >> pure (pos 0)) unlock_register
        (post-EndsAt sems fd after_register Sem.items (record cr { mutex = suc cr.mutex })
          announcing serving (pure (pos 0)) announce stay)

  marking-EndsAt :
      (cr : ClientRegistry)
      → EndsAt fd cr counted after_register
          ((when (int_eq cr.count (pos 1)) (wait sems Sem.count_mutex) >> announced) cr)
  marking-EndsAt cr = elim (Bool-cases (int_eq cr.count (pos 1))) [
    | inl one ↦ rw one (
        wait-EndsAt sems fd after_register Sem.count_mutex cr counted _ (λ e. waits_count e one)
          (λ k e.
            first sems fd after_register {cr = cr} (announced (record cr { count_mutex = k }))
              (mark_first one e) (announcing-EndsAt (record cr { count_mutex = k }))))
    | inr more ↦ rw more (
        first sems fd after_register {cr = cr} (announced cr) (mark_later more)
          (announcing-EndsAt cr))
  ]

  -- In a registry whose array has `n` entries, a thread that takes the steps of `creg_register`
  -- with nobody in between ends with the registry and behind the return that the call gives;
  -- where the call waits, the thread comes to a place at which it has no step, with the registry
  -- as the call has left it. The call does not fault.
  pub creg_register-EndsAt :
      (cr : ClientRegistry)
      → length cr.fds ≡ cr.n
      → EndsAt fd cr connected after_register (creg_register sems fd cr)
  unfolding creg_register search_for_empty_slot
  creg_register-EndsAt cr size =
      wait-EndsAt sems fd after_register Sem.slots cr connected _ waits_slot (λ k e.
        first sems fd after_register _ (take_slot e) (
          wait-EndsAt sems fd after_register Sem.mutex _ has_slot _ waits_register (λ j e'.
            first sems fd after_register _ (lock_register e')
              (elim (search_result cr is_free size) [
                | inr full ↦ rw full (go (search_full full) stay)
                | inl (i, at_i) ↦ rw at_i (
                    first sems fd after_register _ (search_free at_i) (
                      first sems fd after_register _ store (
                        first sems fd after_register _ count_in (
                          marking-EndsAt (record cr {
                            fds = set cr.fds i fd;
                            count = inc cr.count;
                            slots = k;
                            mutex = j;
                          })))))
              ]))))
