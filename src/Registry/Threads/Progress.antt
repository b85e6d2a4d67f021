-- ===== src/Registry/Threads/Progress.antt =====
-- src/client_registry.c: whether the threads get through their calls.
use bourse_server.Base.{
  ℕ, suc, ◌+◌, ◌≤◌, ◌<◌, ◌≡◌, refl, sym, subst, ◌∙◌, ap, ◌≢◌, ◌⊎◌, inl, inr, List, [], ◌∷◌, length,
  ℤ, pos, minus_one, arith, total, total-ge, total-find, total-zero, total-move,
}
use bourse_server.Registry.Defs.{Semaphores, ClientRegistry, fd_setsize, creg_init}
use bourse_server.Registry.Contents.{registered}
use bourse_server.Registry.Invariant.{Inv, clients, empty_value}
use bourse_server.Registry.History.{length-perm}
use bourse_server.Registry.Threads.Steps.{
  Counter, connected, gone, Move, take_slot, Shared, Step, pick, Reach, here, later,
}
use bourse_server.Registry.Threads.Order.{
  slot_of, lock_of, item_of, counts_of, marks_of, entry_of, failure_of, IsOrderly,
}
use bourse_server.Registry.Threads.Present.{length-present}
use bourse_server.Registry.Threads.Safety.{all_connected, Reach-IsOrderly}
use bourse_server.Registry.Threads.Ranking.{
  rank, Move-rank, CanMove, some_suc, moves_inside, moves_outside,
}

abbrev pub Next : ℕ → (ℕ → ℤ) → Shared → Type 0
Next n fds s = (t : Shared) × Step n fds s t

-- Every thread has returned from both calls, and the registry is in order and empty.
abbrev pub IsOver : ℕ → Shared → Type 0
IsOver n s =
    ((i : ℕ) → i < n → s.threads i ≡ gone) × Inv s.registry × (registered s.registry.fds ≡ [])

empty-length : (l : List ℤ) → length l ≡ 0 → l ≡ []
empty-length [] h = refl
empty-length (x ∷ l) h = absurd (omega (arith, h))

rank_zero : (c : Counter) → rank c ≡ 0 → failure_of c ≡ 0 → c ≡ gone
rank_zero gone h k = refl
rank_zero c h k = absurd (omega (arith, h, k))

inside_bit : (c : Counter) → 1 ≤ lock_of c → lock_of c ≡ 1
inside_bit connected h = absurd (omega (arith, h))
inside_bit c h = omega (arith, h)

slot_bit : (c : Counter) → 1 ≤ slot_of c → slot_of c ≡ 1
slot_bit connected h = absurd (omega (arith, h))
slot_bit c h = omega (arith, h)

ahead_connected : (c : Counter) → 1 ≤ rank c → slot_of c ≡ 0 → failure_of c ≡ 0 → c ≡ connected
ahead_connected connected ahead h k = refl
ahead_connected c ahead h k = absurd (omega (arith, ahead, h, k))

Move-n : {fd : ℤ} {cr cr' : ClientRegistry} {p p' : Counter} → Move fd cr p cr' p' → cr'.n ≡ cr.n
Move-n (take_slot e) = refl
Move-n mv = refl

module _ {n : ℕ} {fds : ℕ → ℤ} {s : Shared} (ok : IsOrderly n fds s) where
  open s use {registry, threads}

  step : (i : ℕ) → i < n → CanMove (fds i) registry (threads i) → Next n fds s
  step i lt (cr, c, mv) = (_, pick i lt mv)

  all_gone-IsOver : ((i : ℕ) → i < n → threads i ≡ gone) → IsOver n s
  all_gone-IsOver done_with =
      let none_of : (w : Counter → ℕ) → w gone ≡ 0 → total w n threads ≡ 0 =
        λ w e. total-zero w n threads (λ i lt. ap w (done_with i lt) ∙ e) in
      let nobody : clients registry ≡ 0 =
        length-perm ok.entries ∙ length-present fds threads n ∙ none_of entry_of refl in
      (
        done_with,
        record {
          size = ok.size;
          counted = ok.count ∙ ap pos (none_of counts_of refl ∙ sym nobody);
          free = omega (arith, ok.slots, nobody, none_of slot_of refl);
          full = omega (arith, ok.items, nobody, none_of item_of refl);
          unlocked = omega (arith, ok.lock, none_of lock_of refl);
          empty = ok.marks ∙ ap empty_value (none_of marks_of refl ∙ sym nobody);
        },
        empty-length (registered registry.fds) nobody,
      )

  -- While a thread has something left to do, a thread can go on.
  progress : (i : ℕ) (lt : i < n) → 1 ≤ rank (threads i) → 1 ≤ registry.n → Next n fds s
  progress i lt ahead room = elim (total-find lock_of n threads) [
    | inl (j, hj, in_mutex) ↦
        step j hj (moves_inside ok j hj (threads j) refl (inside_bit (threads j) in_mutex))
    | inr unlocked ↦ elim (total-find slot_of n threads) [
      | inl (j, hj, has) ↦ step j hj (
          moves_outside ok j hj (threads j) refl (total-zero lock_of n threads unlocked)
            (slot_bit (threads j) has))
      | inr none_taken ↦
          let ahead_of_all : threads i ≡ connected =
            ahead_connected (threads i) ahead (none_taken i lt)
              (omega (arith, ok.no_failure, total-ge failure_of n i threads lt)) in
          let (k, e) =
            some_suc registry.slots
              (omega (arith, ok.slots, room, total-zero slot_of n threads none_taken)) in
          step i lt (subst (CanMove (fds i) registry) (sym ahead_of_all) (_, _, take_slot e))
    ]
  ]

-- The number of steps of a run.
abbrev pub steps : {n : ℕ} {fds : ℕ → ℤ} {s t : Shared} → Reach n fds s t → ℕ
steps here = 0
steps (later r st) = suc (steps r)

pub steps-rank :
    {n : ℕ} {fds : ℕ → ℤ} {s t : Shared} (r : Reach n fds s t)
    → steps r + total rank n t.threads ≤ total rank n s.threads
steps-rank here = omega arith
steps-rank {n = n} (later {t = t} r (pick {c = c} i lt mv)) =
    omega (arith, steps-rank r, Move-rank mv, total-move rank n i t.threads c lt)

module _ (sems : Semaphores) (n : ℕ) (fds : ℕ → ℤ) where
  Reach-n : {s : Shared} → Reach n fds (all_connected sems) s → s.registry.n ≡ fd_setsize
  unfolding creg_init
  Reach-n here = refl
  Reach-n (later r (pick i lt mv)) = Move-n mv ∙ Reach-n r

  -- Any number of threads, each with a descriptor other than -1, register their clients with a new
  -- registry and take them out again, interleaved in any way. In every state that they reach,
  -- some thread can take a step, or every thread has returned from both calls, and the registry
  -- is in order and empty: there is no deadlock.
  pub Reach-progress :
      {s : Shared}
      → ((i : ℕ) → i < n → fds i ≢ minus_one)
      → Reach n fds (all_connected sems) s
      → Next n fds s ⊎ IsOver n s
  Reach-progress {s} h r =
      let ok = Reach-IsOrderly sems n fds h r in
      elim (total-find rank n s.threads) [
        | inl (i, lt, ahead) ↦ inl (progress ok i lt ahead (omega (arith, Reach-n r)))
        | inr nowhere ↦ inr (
            all_gone-IsOver ok (λ i lt.
              rank_zero (s.threads i) (nowhere i lt)
                (omega (arith, ok.no_failure, total-ge failure_of n i s.threads lt))))
      ]
