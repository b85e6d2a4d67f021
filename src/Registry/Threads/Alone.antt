-- ===== src/Registry/Threads/Alone.antt =====
-- src/client_registry.c: the steps of one thread that nobody interrupts, beside the calls.
pub mod Register
pub mod Unregister
use bourse_server.Base.{
  ℕ, zero, suc, ◌+◌, ◌≡◌, refl, sym, subst, ◌∙◌, ap, ◌⊎◌, inl, inr, Bool, true, false, Bool-cases,
  ◌++◌, ◌∷◌, length, set, ℤ, pos, negsuc, minus_one, int_eq, inc, dec, M, Outcome, done, blocked,
  fault, pure, when, ◌>>◌, arith, if◌then◌else◌,
}
use bourse_server.Registry.Defs.{
  Semaphores, ClientRegistry, Sem, value, with_value, wait, post, creg_register, creg_unregister,
  search_from, search_for_empty_slot, is_fd, is_free,
}
use bourse_server.Registry.Threads.Steps.{
  Counter, connected, has_slot, register_locked, found, stored, counted, joined, announcing,
  serving, has_item, unregister_locked, at_entry, cleared, uncounted, left, returning, gone,
  refused, missing, missing_returning, failed, Move, take_slot, lock_register, search_free,
  search_full, store, count_in, mark_first, mark_later, unlock_register, announce, take_item,
  lock_unregister, search_own, search_missing, clear, count_out, unmark_last, unmark_other,
  unlock_unregister, give_slot, unlock_missing, give_missing,
}
use bourse_server.Registry.Threads.Ranking.{search_result}
use bourse_server.Registry.Values.{wait-zero, wait-suc}

-- Steps of one thread, while the others do nothing.
pub data Moves (fd : ℤ) : ClientRegistry → Counter → ClientRegistry → Counter → Type 0 where
  stay : {cr : ClientRegistry} {c : Counter} → Moves fd cr c cr c
  go :
      {cr cr' cr'' : ClientRegistry} {p p' p'' : Counter}
      → Move fd cr p cr' p'
      → Moves fd cr' p' cr'' p''
      → Moves fd cr p cr'' p''

-- The thread waits.
abbrev pub Stuck : ℤ → ClientRegistry → Counter → Type 0
Stuck fd cr c = (cr' : ClientRegistry) (c' : Counter) → ¬ Move fd cr c cr' c'

-- The thread comes to the place `at r` behind a call that returns `r`, and waits where the call
-- waits, with the registry that the call leaves.
abbrev pub EndsAt : ℤ → ClientRegistry → Counter → (ℤ → Counter) → Outcome ClientRegistry ℤ → Type 0
EndsAt fd cr c at (done r cr') = Moves fd cr c cr' (at r)
EndsAt fd cr c at fault = ⊥
EndsAt fd cr c at (blocked cr') = (c' : Counter) × Moves fd cr c cr' c' × Stuck fd cr' c'

zero_or_suc : (k : ℕ) → (k ≡ 0) ⊎ ((m : ℕ) × (k ≡ suc m))
zero_or_suc zero = inl refl
zero_or_suc (suc k) = inr (k, refl)

module _ {fd : ℤ} {cr : ClientRegistry} where
  pub waits_slot : cr.slots ≡ 0 → Stuck fd cr connected
  waits_slot e cr' c' (take_slot e') = absurd (omega (arith, e, e'))

  pub waits_register : cr.mutex ≡ 0 → Stuck fd cr has_slot
  waits_register e cr' c' (lock_register e') = absurd (omega (arith, e, e'))

  pub waits_count : cr.count_mutex ≡ 0 → int_eq cr.count (pos 1) ≡ true → Stuck fd cr counted
  waits_count e h cr' c' (mark_first h' e') = absurd (omega (arith, e, e'))
  waits_count e h cr' c' (mark_later h') = absurd cc

  pub waits_item : cr.items ≡ 0 → Stuck fd cr serving
  waits_item e cr' c' (take_item e') = absurd (omega (arith, e, e'))

  pub waits_unregister : cr.mutex ≡ 0 → Stuck fd cr has_item
  waits_unregister e cr' c' (lock_unregister e') = absurd (omega (arith, e, e'))

module _ (sems : Semaphores) (fd : ℤ) (at : ℤ → Counter) where
  pub first :
      {cr cr' : ClientRegistry} {c c' : Counter} (o : Outcome ClientRegistry ℤ)
      → Move fd cr c cr' c'
      → EndsAt fd cr' c' at o
      → EndsAt fd cr c at o
  first fault mv e = e
  first (done r end) mv e = go mv e
  first (blocked end) mv (c'', run, stuck) = (c'', go mv run, stuck)

  pub wait-EndsAt :
      (s : Sem) (cr : ClientRegistry) (c : Counter) (rest : M ClientRegistry ℤ)
      → (value s cr ≡ 0 → Stuck fd cr c)
      → ((k : ℕ) → value s cr ≡ suc k → EndsAt fd cr c at (rest (with_value s k cr)))
      → EndsAt fd cr c at ((wait sems s >> rest) cr)
  wait-EndsAt s cr c rest waits goes = elim (zero_or_suc (value s cr)) [
    | inl e ↦ rw (wait-zero sems s cr e) (c, stay, waits e)
    | inr (k, e) ↦ rw (wait-suc sems s cr k e) (goes k e)
  ]

  pub post-EndsAt :
      (s : Sem) (cr : ClientRegistry) (c c' : Counter) (rest : M ClientRegistry ℤ)
      → Move fd cr c (with_value s (suc (value s cr)) cr) c'
      → EndsAt fd
          (with_value s (suc (value s cr)) cr)
          c'
          at
          (rest (with_value s (suc (value s cr)) cr))
      → EndsAt fd cr c at ((post sems s >> rest) cr)
  post-EndsAt s cr c c' rest mv end =
      subst (λ k. EndsAt fd cr c at (rest (with_value s k cr))) (sym (sems.v_lem (value s cr)))
        (first _ mv end)
