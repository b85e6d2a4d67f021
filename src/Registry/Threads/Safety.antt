-- ===== src/Registry/Threads/Safety.antt =====
-- src/client_registry.c: every state that the threads reach from a new registry.
use mathlib.Core.List.Perm
use bourse_server.Base.{
  ℕ, zero, suc, ◌≤◌, ◌<◌, ◌≡◌, refl, ◌⊎◌, inl, inr, done, blocked, ◌∙◌, ap, ◌≢◌, [], length, ℤ, pos,
  minus_one, arith, move, total-const, total-ge, total-find, total-zero,
}
use bourse_server.Registry.Defs.{
  Semaphores, count_mutex, ClientRegistry, creg_init, creg_wait_for_empty,
}
use bourse_server.Registry.Invariant.{clients, empty_value, creg_init-Inv}
use bourse_server.Registry.Values.{wait-zero, wait-suc}
use bourse_server.Registry.Threads.Steps.{
  Counter, connected, Move, Shared, pick, Reach, here, later,
}
use bourse_server.Registry.Threads.Order.{
  slot_of, lock_of, item_of, counts_of, marks_of, failure_of, present, IsOrderly,
}
use bourse_server.Registry.Threads.Moves.{
  mover, no_failure, Move-slots, Move-lock, Move-items, Move-count, Move-marks,
}
use bourse_server.Registry.Threads.Entries.{Move-entries, Move-size, Move-Knows}

-- A new registry, with `creg_register` ahead of every thread.
abbrev pub all_connected : Semaphores → Shared
all_connected sems = record { registry = creg_init sems; threads = λ _. connected }

Move-IsOrderly :
    {n : ℕ} {fds : ℕ → ℤ} {s : Shared} {cr : ClientRegistry} {c : Counter} (i : ℕ)
    → IsOrderly n fds s
    → i < n
    → fds i ≢ minus_one
    → Move (fds i) s.registry (s.threads i) cr c
    → IsOrderly n fds (record { registry = cr; threads = move s.threads i c })
Move-IsOrderly {c = c} i ok lt h mv =
    let m = mover ok i lt c in
    record {
      size = Move-size ok i lt mv m;
      slots = Move-slots ok i lt mv m;
      lock = Move-lock ok i lt mv m;
      items = Move-items ok i lt mv m;
      count = Move-count ok i lt mv m;
      marks = Move-marks ok i lt mv m;
      no_failure = omega (arith, ok.no_failure, no_failure ok i lt mv m, m.failure);
      entries = Move-entries ok i lt h mv m;
      knows = Move-Knows ok i lt mv m;
    }

present-connected : (fds : ℕ → ℤ) (n : ℕ) → present n fds (λ _. connected) ≡ []
unfolding present
present-connected fds zero = refl
present-connected fds (suc n) = present-connected fds n

marks_bit : (c : Counter) → 1 ≤ marks_of c → marks_of c ≡ 1
marks_bit connected h = absurd (omega (arith, h))
marks_bit c h = omega (arith, h)

module _ (sems : Semaphores) (n : ℕ) (fds : ℕ → ℤ) where
  all_connected-IsOrderly : IsOrderly n fds (all_connected sems)
  all_connected-IsOrderly =
      let (inv, none_there) = creg_init-Inv sems in
      let nobody : clients (creg_init sems) ≡ 0 = ap length none_there in
      record {
        size = inv.size;
        slots = omega (arith, inv.free, nobody, total-const slot_of n connected);
        lock = omega (arith, inv.unlocked, total-const lock_of n connected);
        items = omega (arith, inv.full, nobody, total-const item_of n connected);
        count = inv.counted ∙ ap pos (omega (arith, nobody, total-const counts_of n connected));
        marks =
            inv.empty ∙ ap empty_value (omega (arith, nobody, total-const marks_of n connected));
        no_failure = omega (arith, total-const failure_of n connected);
        entries = rw (none_there, present-connected fds n) (Perm.refl []);
        knows = λ i lt. tt;
      }

  -- Any number of threads, each with a descriptor other than -1, register their clients with a new
  -- registry and take them out again, interleaved in any way. In every state that they reach, at
  -- most one thread is behind P(&cr->mutex); no search has failed; the array holds exactly the
  -- descriptors of the threads between their two stores; `count`, `slots`, `items`, `mutex` and
  -- `count_mutex` have the values that the places of the threads say; and a thread that has an
  -- index has that of a free entry, or of its own.
  pub Reach-IsOrderly :
      {s : Shared}
      → ((i : ℕ) → i < n → fds i ≢ minus_one)
      → Reach n fds (all_connected sems) s
      → IsOrderly n fds s
  Reach-IsOrderly h here = all_connected-IsOrderly
  Reach-IsOrderly h (later r (pick i lt mv)) = Move-IsOrderly i (Reach-IsOrderly h r) lt (h i lt) mv

  -- What `creg_wait_for_empty` does while threads are in the calls or between them.
  abbrev pub WaitsFor : Shared → Type 0
  WaitsFor s =
      ((creg_wait_for_empty sems s.registry ≡ blocked s.registry)
        × ((i : ℕ) × (i < n) × (marks_of (s.threads i) ≡ 1)))
      ⊎ ((creg_wait_for_empty sems s.registry ≡ done tt (record s.registry { count_mutex = 0 }))
          × ((i : ℕ) → i < n → marks_of (s.threads i) ≡ 0))

  -- In every state that the threads reach from a new registry, `creg_wait_for_empty` waits if some
  -- thread is between the test of the count in `creg_register` and that in `creg_unregister`, and
  -- otherwise returns and takes `count_mutex` to 0.
  pub Reach-WaitsFor :
      {s : Shared}
      → ((i : ℕ) → i < n → fds i ≢ minus_one)
      → Reach n fds (all_connected sems) s
      → WaitsFor s
  unfolding creg_wait_for_empty
  Reach-WaitsFor {s} h r =
      let ok = Reach-IsOrderly h r in
      elim (total-find marks_of n s.threads) [
        | inl (i, lt, marked) ↦
            let here : s.registry.count_mutex ≡ 0 =
              ground (arith, ok.marks, total-ge marks_of n i s.threads lt) in
            inl
              (wait-zero sems count_mutex s.registry here, (i, lt, marks_bit (s.threads i) marked))
        | inr nowhere ↦
            let here : s.registry.count_mutex ≡ 1 =
              ground (arith, ok.marks, total-zero marks_of n s.threads nowhere) in
            inr (wait-suc sems count_mutex s.registry 0 here, nowhere)
      ]
