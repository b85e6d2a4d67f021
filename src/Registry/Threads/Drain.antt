-- ===== src/Registry/Threads/Drain.antt =====
-- src/client_registry.c: the end of a run of the threads, and `creg_wait_for_empty` there.
use bourse_server.Base.{
  ℕ, zero, suc, ◌*◌, ◌≤◌, ◌<◌, ◌≡◌, refl, ◌∙◌, ap, ◌≢◌, inl, inr, length, ℤ, minus_one, done, arith,
  total, total-move, total-const,
}
use bourse_server.Registry.Defs.{Semaphores, creg_wait_for_empty}
use bourse_server.Registry.Invariant.{clients}
use bourse_server.Registry.Waiting.{creg_wait_for_empty_lem}
use bourse_server.Registry.Threads.Steps.{connected, Shared, Step, pick, Reach, here, later}
use bourse_server.Registry.Threads.Safety.{all_connected}
use bourse_server.Registry.Threads.Ranking.{rank, Move-rank}
use bourse_server.Registry.Threads.Progress.{IsOver, Reach-progress, steps, steps-rank}

Reach-trans :
    {n : ℕ} {fds : ℕ → ℤ} {s t u : Shared} → Reach n fds s t → Reach n fds t u → Reach n fds s u
Reach-trans r here = r
Reach-trans r (later q st) = later (Reach-trans r q) st

Step-rank :
    {n : ℕ} {fds : ℕ → ℤ} {s t : Shared}
    → Step n fds s t
    → total rank n t.threads < total rank n s.threads
Step-rank {n = n} {s = s} (pick {c = c} i lt mv) =
    omega (arith, Move-rank mv, total-move rank n i s.threads c lt)

module _ (sems : Semaphores) (n : ℕ) (fds : ℕ → ℤ)
    (real : (i : ℕ) → i < n → fds i ≢ minus_one) where
  -- On fuel, of one unit for each step that is left.
  get_through :
      {s u : Shared} (k : ℕ)
      → Reach n fds (all_connected sems) s
      → Reach n fds s u
      → total rank n u.threads ≤ k
      → (t : Shared) × Reach n fds s t × IsOver n t
  get_through {u = u} zero r q le = elim (Reach-progress sems n fds real (Reach-trans r q)) [
    | inr over ↦ (u, q, over)
    | inl (t, st) ↦ absurd (omega (arith, le, Step-rank st))
  ]
  get_through {u = u} (suc k) r q le = elim (Reach-progress sems n fds real (Reach-trans r q)) [
    | inr over ↦ (u, q, over)
    | inl (t, st) ↦ get_through k r (later q st) (omega (arith, le, Step-rank st))
  ]

  -- Any number of threads, each with a descriptor other than -1, register their clients with a new
  -- registry and take them out again, interleaved in any way. From every state that they reach
  -- they can go on, in at most 16 steps for each thread, to one in which every thread has
  -- returned from both calls, and the registry is in order and empty; `creg_wait_for_empty`
  -- returns there.
  pub Reach-IsOver :
      {s : Shared}
      → Reach n fds (all_connected sems) s
      → (t : Shared) × (q : Reach n fds s t) × (steps q ≤ 16 * n)
        × IsOver n t
        × (creg_wait_for_empty sems t.registry ≡ done tt (record t.registry { count_mutex = 0 }))
  Reach-IsOver {s} r =
      let (t, q, (gone, inv, nobody)) = get_through (total rank n s.threads) r here (omega arith) in
      let nobody_left : clients t.registry ≡ 0 = ap length nobody in
      (
        t,
        q,
        omega (arith, steps-rank q, steps-rank r, total-const rank n connected),
        (gone, inv, nobody),
        creg_wait_for_empty_lem sems t.registry inv ∙ rw nobody_left refl,
      )
