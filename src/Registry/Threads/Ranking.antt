-- ===== src/Registry/Threads/Ranking.antt =====
-- src/client_registry.c: how far the threads have to go, and what each can do next.
use bourse_server.Base.{
  ℕ, zero, suc, ◌+◌, ◌≤◌, ◌<◌, ◌≡◌, refl, ap, ◌⊎◌, inl, inr, Bool, true, Bool-cases, length, ℤ, pos,
  minus_one, int_eq, arith, total, total-ge,
}
use bourse_server.Registry.Defs.{ClientRegistry, search_from, search_for_empty_slot, is_fd, is_free}
use bourse_server.Registry.Contents.{search_from-cases}
use bourse_server.Registry.Threads.Steps.{
  Counter, connected, has_slot, register_locked, found, stored, counted, joined, announcing,
  serving, has_item, unregister_locked, at_entry, cleared, uncounted, left, returning, gone,
  refused, missing, missing_returning, failed, Move, take_slot, lock_register, search_free,
  search_full, store, count_in, mark_first, mark_later, unlock_register, announce, take_item,
  lock_unregister, search_own, search_missing, clear, count_out, unmark_last, unmark_other,
  unlock_unregister, give_slot, Shared,
}
use bourse_server.Registry.Threads.Order.{slot_of, lock_of, item_of, counts_of, marks_of, IsOrderly}
use bourse_server.Registry.Threads.Moves.{mover, inside, count_test}

-- The number of steps that a thread has ahead of it at most.
abbrev pub rank : Counter → ℕ
rank connected = 16
rank has_slot = 15
rank register_locked = 14
rank (found i) = 13
rank stored = 12
rank counted = 11
rank joined = 10
rank announcing = 9
rank serving = 8
rank has_item = 7
rank unregister_locked = 6
rank (at_entry i) = 5
rank cleared = 4
rank uncounted = 3
rank left = 2
rank returning = 1
rank gone = 0
rank refused = 0
rank missing = 2
rank missing_returning = 1
rank failed = 0

pub Move-rank :
    {fd : ℤ} {cr cr' : ClientRegistry} {p p' : Counter} → Move fd cr p cr' p' → rank p' < rank p
Move-rank (take_slot e) = omega arith
Move-rank mv = omega arith

-- A thread at `c` can go on.
abbrev pub CanMove : ℤ → ClientRegistry → Counter → Type 0
CanMove fd cr c = (cr' : ClientRegistry) × (c' : Counter) × Move fd cr c cr' c'

pub some_suc : (k : ℕ) → 1 ≤ k → (m : ℕ) × (k ≡ suc m)
some_suc zero h = absurd (omega (arith, h))
some_suc (suc k) h = (k, refl)

pub search_result :
    (cr : ClientRegistry) (test : ℤ → Bool)
    → length cr.fds ≡ cr.n
    → ((k : ℕ) × (search_from cr.fds cr.n 0 test ≡ pos k))
      ⊎ (search_from cr.fds cr.n 0 test ≡ minus_one)
search_result cr test size = elim (search_from-cases cr.fds cr.n 0 test (omega (arith, size))) [
  | inl (lost, nowhere) ↦ inr lost
  | inr (pre, x, rest, split, index, holds) ↦ inl (0 + length pre, index)
]

module _ {n : ℕ} {fds : ℕ → ℤ} {s : Shared} (ok : IsOrderly n fds s) (i : ℕ) (lt : i < n) where
  open s use {registry, threads}

  mark_ready :
      threads i ≡ counted
      → int_eq registry.count (pos 1) ≡ true
      → (k : ℕ) × (registry.count_mutex ≡ suc k)
  mark_ready here first =
      let balance = inside ok i lt (mover ok i lt gone) (ap lock_of here) in
      some_suc registry.count_mutex (
        ground (
          arith,
          ok.marks,
          balance,
          ap counts_of here,
          ap marks_of here,
          count_test ok i lt 1 first,
        ))

  -- Behind P(&cr->mutex) nothing waits.
  pub moves_inside : (c : Counter) → threads i ≡ c → lock_of c ≡ 1 → CanMove (fds i) registry c
  unfolding search_for_empty_slot
  moves_inside register_locked here h = elim (search_result registry is_free ok.size) [
    | inl (k, e) ↦ (_, _, search_free e)
    | inr e ↦ (_, _, search_full e)
  ]
  moves_inside (found k) here h = (_, _, store)
  moves_inside stored here h = (_, _, count_in)
  moves_inside counted here h = elim (Bool-cases (int_eq registry.count (pos 1))) [
    | inl first ↦ let (k, e) = mark_ready here first in (_, _, mark_first first e)
    | inr more ↦ (_, _, mark_later more)
  ]
  moves_inside joined here h = (_, _, unlock_register)
  moves_inside unregister_locked here h = elim (search_result registry (is_fd (fds i)) ok.size) [
    | inl (k, e) ↦ (_, _, search_own e)
    | inr e ↦ (_, _, search_missing e)
  ]
  moves_inside (at_entry k) here h = (_, _, clear)
  moves_inside cleared here h = (_, _, count_out)
  moves_inside uncounted here h = elim (Bool-cases (int_eq registry.count (pos 0))) [
    | inl last ↦ (_, _, unmark_last last)
    | inr more ↦ (_, _, unmark_other more)
  ]
  moves_inside left here h = (_, _, unlock_unregister)
  moves_inside c here h = absurd (omega (arith, h))

  -- With a slot and nobody behind P(&cr->mutex), nothing waits either.
  pub moves_outside :
      (c : Counter)
      → threads i ≡ c
      → total lock_of n threads ≡ 0
      → slot_of c ≡ 1
      → CanMove (fds i) registry c
  moves_outside has_slot here free h =
      let (k, e) = some_suc registry.mutex (omega (arith, ok.lock, free)) in (_, _, lock_register e)
  moves_outside announcing here free h = (_, _, announce)
  moves_outside serving here free h =
      let (k, e) =
        some_suc registry.items
          (omega (arith, ok.items, total-ge item_of n i threads lt, ap item_of here)) in
      (_, _, take_item e)
  moves_outside has_item here free h =
      let (k, e) = some_suc registry.mutex (omega (arith, ok.lock, free)) in
      (_, _, lock_unregister e)
  moves_outside returning here free h = (_, _, give_slot)
  moves_outside c here free h =
      absurd (omega (arith, h, free, total-ge lock_of n i threads lt, ap lock_of here))
