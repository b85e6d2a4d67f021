-- ===== src/Registry/Threads/Alone/Unregister.antt =====
-- src/client_registry.c: creg_unregister, by a thread that nobody interrupts.
use bourse_server.Base.{
  suc, ◌≡◌, inl, inr, Bool-cases, length, set, ℤ, pos, negsuc, minus_one, int_eq, dec, M, pure,
  when, ◌>>◌,
}
use bourse_server.Registry.Defs.{Semaphores, ClientRegistry, Sem, post, creg_unregister, is_fd}
use bourse_server.Registry.Threads.Steps.{
  Counter, serving, has_item, uncounted, left, returning, gone, missing, missing_returning, failed,
  take_item, lock_unregister, search_own, search_missing, clear, count_out, unmark_last,
  unmark_other, unlock_unregister, give_slot, unlock_missing, give_missing,
}
use bourse_server.Registry.Threads.Ranking.{search_result}
use bourse_server.Registry.Threads.Alone.{
  stay, EndsAt, first, wait-EndsAt, post-EndsAt, waits_item, waits_unregister,
}

-- Where a thread is behind the call, by its result.
abbrev pub after_unregister : ℤ → Counter
after_unregister (pos k) = gone
after_unregister (negsuc k) = failed

module _ (sems : Semaphores) (fd : ℤ) where
  -- What follows the test of the count, and what follows a search that fails.
  abbrev removed : M ClientRegistry ℤ
  removed = post sems Sem.mutex >> (post sems Sem.slots >> pure (pos 0))

  abbrev not_found : M ClientRegistry ℤ
  not_found = post sems Sem.mutex >> (post sems Sem.slots >> pure minus_one)

  leaving-EndsAt : (cr : ClientRegistry) → EndsAt fd cr left after_unregister (removed cr)
  leaving-EndsAt cr =
      post-EndsAt sems fd after_unregister Sem.mutex cr left returning
        (post sems Sem.slots >> pure (pos 0)) unlock_unregister
        (post-EndsAt sems fd after_unregister Sem.slots (record cr { mutex = suc cr.mutex })
          returning gone (pure (pos 0)) give_slot stay)

  unmarking-EndsAt :
      (cr : ClientRegistry)
      → EndsAt fd cr uncounted after_unregister
          ((when (int_eq cr.count (pos 0)) (post sems Sem.count_mutex) >> removed) cr)
  unmarking-EndsAt cr = elim (Bool-cases (int_eq cr.count (pos 0))) [
    | inl last ↦ rw last (
        post-EndsAt sems fd after_unregister Sem.count_mutex cr uncounted left removed
          (unmark_last last) (leaving-EndsAt (record cr { count_mutex = suc cr.count_mutex })))
    | inr more ↦ rw more (
        first sems fd after_unregister {cr = cr} (removed cr) (unmark_other more)
          (leaving-EndsAt cr))
  ]

  missing-EndsAt : (cr : ClientRegistry) → EndsAt fd cr missing after_unregister (not_found cr)
  missing-EndsAt cr =
      post-EndsAt sems fd after_unregister Sem.mutex cr missing missing_returning
        (post sems Sem.slots >> pure minus_one) unlock_missing
        (post-EndsAt sems fd after_unregister Sem.slots (record cr { mutex = suc cr.mutex })
          missing_returning failed (pure minus_one) give_missing stay)

  -- In a registry whose array has `n` entries, a thread that takes the steps of `creg_unregister`
  -- with nobody in between ends with the registry and behind the return that the call gives;
  -- where the call waits, the thread comes to a place at which it has no step, with the registry
  -- as the call has left it. The call does not fault.
  pub creg_unregister-EndsAt :
      (cr : ClientRegistry)
      → length cr.fds ≡ cr.n
      → EndsAt fd cr serving after_unregister (creg_unregister sems fd cr)
  unfolding creg_unregister
  creg_unregister-EndsAt cr size =
      wait-EndsAt sems fd after_unregister Sem.items cr serving _ waits_item (λ k e.
        first sems fd after_unregister _ (take_item e) (
          wait-EndsAt sems fd after_unregister Sem.mutex _ has_item _ waits_unregister (λ j e'.
            first sems fd after_unregister _ (lock_unregister e')
              (elim (search_result cr (is_fd fd) size) [
                | inr nowhere ↦ rw nowhere (
                    first sems fd after_unregister {cr = record cr { items = k; mutex = j }}
                      (not_found (record cr { items = k; mutex = j })) (search_missing nowhere)
                      (missing-EndsAt (record cr { items = k; mutex = j })))
                | inl (i, at_i) ↦ rw at_i (
                    first sems fd after_unregister _ (search_own at_i) (
                      first sems fd after_unregister _ clear (
                        first sems fd after_unregister _ count_out (
                          unmarking-EndsAt (record cr {
                            fds = set cr.fds i minus_one;
                            count = dec cr.count;
                            items = k;
                            mutex = j;
                          })))))
              ]))))
