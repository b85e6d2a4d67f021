-- ===== src/Registry/Threads/Moves.antt =====
-- src/client_registry.c: the steps of the threads, and the order.
use mathlib.Core.List.Perm
use bourse_server.Base.{
  ℕ, suc, ◌+◌, ◌≤◌, ◌<◌, ◌≡◌, refl, sym, ◌∙◌, ap, inl, inr, Bool, ℤ, pos, minus_one, int_eq, inc,
  dec, arith, ◌==◌, move, total, total-move, total-ge, total-lt, total-same,
}
use bourse_server.Registry.Defs.{ClientRegistry, search_from, search_for_empty_slot, is_fd, is_free}
use bourse_server.Registry.Contents.{search_from-cases, length-registered_full, not-mem_of_NoneOf}
use bourse_server.Registry.Invariant.{empty_value}
use bourse_server.Registry.Threads.Steps.{
  Counter, register_locked, unregister_locked, uncounted, gone, Move, take_slot, lock_register,
  search_full, count_in, mark_first, mark_later, take_item, lock_unregister, search_missing,
  count_out, unmark_last, unmark_other, unlock_missing, give_missing, Shared,
}
use bourse_server.Registry.History.{length-perm}
use bourse_server.Registry.Threads.Present.{entry-le, length-present, mem-present, marks-counts}
use bourse_server.Registry.Threads.Order.{
  slot_of, lock_of, item_of, counts_of, marks_of, entry_of, failure_of, IsOrderly,
}

-- The premise of a step on a semaphore.
abbrev Guard : {fd : ℤ} {cr cr' : ClientRegistry} {p p' : Counter} → Move fd cr p cr' p' → Type 0
Guard {cr = cr} (take_slot {k} e) = cr.slots ≡ suc k
Guard {cr = cr} (lock_register {k} e) = cr.mutex ≡ suc k
Guard {cr = cr} (take_item {k} e) = cr.items ≡ suc k
Guard {cr = cr} (lock_unregister {k} e) = cr.mutex ≡ suc k
Guard mv = Unit {0}

guard : {fd : ℤ} {cr cr' : ClientRegistry} {p p' : Counter} (mv : Move fd cr p cr' p') → Guard mv
guard (take_slot e) = e
guard (lock_register e) = e
guard (take_item e) = e
guard (lock_unregister e) = e
guard mv = tt

pos_ne : {k : ℕ} → pos k ≡ minus_one → ⊥
pos_ne e = cc

-- An index is not the -1 of a failed search.
pub no_index : {r : ℤ} {k : ℕ} → r ≡ pos k → r ≡ minus_one → ⊥
no_index hit lost = pos_ne (sym hit ∙ lost)

module _ {n : ℕ} {fds : ℕ → ℤ} {s : Shared} (ok : IsOrderly n fds s) (i : ℕ) (lt : i < n) where
  open s use {registry, threads}

  -- Thread `i` goes from `p` to `p'`.
  pub record Mover (p p' : Counter) : Type 0 where
    pub here : threads i ≡ p
    pub slot :
        total slot_of n (move threads i p') + slot_of p ≡ total slot_of n threads + slot_of p'
    pub lock :
        total lock_of n (move threads i p') + lock_of p ≡ total lock_of n threads + lock_of p'
    pub item :
        total item_of n (move threads i p') + item_of p ≡ total item_of n threads + item_of p'
    pub counts :
        total counts_of n (move threads i p') + counts_of p
        ≡ total counts_of n threads + counts_of p'
    pub marks :
        total marks_of n (move threads i p') + marks_of p ≡ total marks_of n threads + marks_of p'
    pub failure :
        total failure_of n (move threads i p') + failure_of p
        ≡ total failure_of n threads + failure_of p'

  pub mover : (p' : Counter) → Mover (threads i) p'
  mover p' = record {
    here = refl;
    slot = total-move slot_of n i threads p' lt;
    lock = total-move lock_of n i threads p' lt;
    item = total-move item_of n i threads p' lt;
    counts = total-move counts_of n i threads p' lt;
    marks = total-move marks_of n i threads p' lt;
    failure = total-move failure_of n i threads p' lt;
  }

  pub no_failing : {p p' : Counter} → Mover p p' → 1 ≤ failure_of p → ⊥
  no_failing {p} m bad =
      omega (arith, ok.no_failure, total-ge failure_of n i threads lt, ap failure_of m.here)

  -- A thread with the mutex and a slot but no entry finds a free entry.
  pub not_full : threads i ≡ register_locked → search_for_empty_slot registry ≡ minus_one → ⊥
  unfolding search_for_empty_slot
  not_full here full =
      elim (search_from-cases registry.fds registry.n 0 is_free (omega (arith, ok.size))) [
        | inl (e, none_free) ↦ omega (
          arith,
          ok.size,
          ok.slots,
          length-registered_full registry.fds none_free,
          length-perm ok.entries,
          length-present fds threads n,
          total-lt entry_of slot_of entry-le n i threads lt
              (omega (arith, ap entry_of here, ap slot_of here)),
        )
        | inr (pre, x, rest, split, index, free) ↦ no_index index full
      ]

  -- A thread that has registered its descriptor finds it.
  pub not_missing :
      threads i ≡ unregister_locked
      → search_from registry.fds registry.n 0 (is_fd (fds i)) ≡ minus_one
      → ⊥
  not_missing here lost =
      elim (search_from-cases registry.fds registry.n 0 (is_fd (fds i)) (omega (arith, ok.size))) [
        | inl (e, nowhere) ↦
            not-mem_of_NoneOf registry.fds (fds i) nowhere
              ((Perm.mem_iff ok.entries).1 (mem-present fds threads n i lt (ap entry_of here)))
        | inr (pre, x, rest, split, index, same) ↦ no_index index lost
      ]

  -- No call fails.
  pub no_failure :
      {p p' : Counter} {cr' : ClientRegistry}
      → Move (fds i) registry p cr' p'
      → Mover p p'
      → (failure_of p ≡ 0) × (failure_of p' ≡ 0)
  no_failure (search_full e) m = absurd (not_full m.here e)
  no_failure (search_missing e) m = absurd (not_missing m.here e)
  no_failure unlock_missing m = absurd (no_failing m (omega arith))
  no_failure give_missing m = absurd (no_failing m (omega arith))
  no_failure mv m = (refl, refl)

  pub Move-slots :
      {p p' : Counter} {cr' : ClientRegistry}
      → Move (fds i) registry p cr' p'
      → Mover p p'
      → cr'.slots + total slot_of n (move threads i p') ≡ cr'.n
  Move-slots (search_full e) m = absurd (not_full m.here e)
  Move-slots mv m = omega (arith, ok.slots, guard mv, m.slot, no_failure mv m)

  pub Move-lock :
      {p p' : Counter} {cr' : ClientRegistry}
      → Move (fds i) registry p cr' p'
      → Mover p p'
      → cr'.mutex + total lock_of n (move threads i p') ≡ 1
  Move-lock (search_full e) m = absurd (not_full m.here e)
  Move-lock mv m = omega (arith, ok.lock, guard mv, m.lock, no_failure mv m)

  pub Move-items :
      {p p' : Counter} {cr' : ClientRegistry}
      → Move (fds i) registry p cr' p'
      → Mover p p'
      → cr'.items ≡ total item_of n (move threads i p')
  Move-items (search_full e) m = absurd (not_full m.here e)
  Move-items mv m = omega (arith, ok.items, guard mv, m.item, no_failure mv m)

  pub Move-count :
      {p p' : Counter} {cr' : ClientRegistry}
      → Move (fds i) registry p cr' p'
      → Mover p p'
      → cr'.count ≡ pos (total counts_of n (move threads i p'))
  Move-count count_in m = ap inc ok.count ∙ ap pos (omega (arith, m.counts))
  Move-count count_out m = ap dec (ok.count ∙ ap pos one_more)
    where
      one_more : total counts_of n threads ≡ suc (total counts_of n (move threads i uncounted))
      one_more = omega (arith, m.counts)
  Move-count mv m = ok.count ∙ ap pos (omega (arith, m.counts, no_failure mv m))

  -- With thread `i` in the mutex, the others count where they mark.
  pub inside :
      {p p' : Counter}
      → Mover p p'
      → lock_of p ≡ 1
      → total marks_of n threads + counts_of p ≡ total counts_of n threads + marks_of p
  inside m has =
      let out : Mover (threads i) gone = mover gone in
      omega (
        arith,
        has,
        ok.lock,
        ap lock_of m.here,
        ap marks_of m.here,
        ap counts_of m.here,
        out.lock,
        out.marks,
        out.counts,
        total-same marks_of counts_of lock_of marks-counts n (move threads i gone)
            (omega (arith, has, ap lock_of m.here, ok.lock, out.lock)),
      )

  pub count_test :
      (k : ℕ) {b : Bool} → int_eq registry.count (pos k) ≡ b → (total counts_of n threads == k) ≡ b
  count_test k e = ap (λ c. int_eq c (pos k)) (sym ok.count) ∙ e

  pub Move-marks :
      {p p' : Counter} {cr' : ClientRegistry}
      → Move (fds i) registry p cr' p'
      → Mover p p'
      → cr'.count_mutex ≡ empty_value (total marks_of n (move threads i p'))
  Move-marks (mark_first e took) m =
      ground (arith, inside m refl, ok.marks, took, count_test 1 e, m.marks)
  Move-marks (mark_later e) m = ground (arith, inside m refl, ok.marks, count_test 1 e, m.marks)
  Move-marks (unmark_last e) m = ground (arith, inside m refl, ok.marks, count_test 0 e, m.marks)
  Move-marks (unmark_other e) m = ground (arith, inside m refl, ok.marks, count_test 0 e, m.marks)
  Move-marks mv m = ok.marks ∙ ap empty_value (omega (arith, m.marks, no_failure mv m))
