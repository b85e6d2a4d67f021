-- ===== src/Registry/Unregister.antt =====
-- src/client_registry.c: `creg_unregister`.
use mathlib.Core.List.{Mem, Perm}
use bourse_server.Base.{
  suc, ◌-◌, ◌<◌, ◌≡◌, refl, ◌∙◌, ap, ◌≢◌, inl, inr, List, ◌∷◌, ◌++◌, ℤ, pos, minus_one, int_eq_iff,
  length, arith, done, blocked,
}
use bourse_server.Registry.Defs.{Semaphores, ClientRegistry, creg_unregister, search_from, is_fd}
use bourse_server.Registry.Contents.{registered, search_from-cases, set-split, not-mem_of_NoneOf}
use bourse_server.Registry.Invariant.{
  Inv, clients, empty_value, unregister-perm, length-split, length-registered-split,
}

module _ (sems : Semaphores) where
  open sems use {p, v, p-zero, p-suc, v_lem}

  abbrev removed : ClientRegistry → List ℤ → List ℤ → ClientRegistry
  removed cr pre rest = record cr {
    fds = pre ++ minus_one ∷ rest;
    count = pos (clients cr - 1);
    count_mutex = empty_value (clients cr - 1);
    items = cr.items - 1;
    slots = suc (cr.slots);
  }

  unregister_at :
      (cr : ClientRegistry) (fd : ℤ) (pre rest : List ℤ)
      → Inv cr
      → 0 < clients cr
      → cr.fds ≡ pre ++ fd ∷ rest
      → search_from cr.fds cr.n 0 (is_fd fd) ≡ pos (length pre)
      → creg_unregister sems fd cr ≡ done (pos 0) (removed cr pre rest)
  unfolding creg_unregister
  unregister_at cr fd pre rest inv h e f = ground (
    arith,
    p-suc (cr.items - 1),
    p-suc 0,
    v_lem 0,
    v_lem cr.slots,
    set-split pre rest fd minus_one,
  )

  unregister_at-Inv :
      (cr : ClientRegistry) (fd : ℤ) (pre rest : List ℤ)
      → Inv cr
      → fd ≢ minus_one
      → cr.fds ≡ pre ++ fd ∷ rest
      → Inv (removed cr pre rest)
  unregister_at-Inv cr fd pre rest inv h e = record {
    size = ground (arith, length-split pre rest fd minus_one);
    counted = ap pos (omega (arith, shrunk));
    free = omega (arith, shrunk);
    full = omega (arith, shrunk);
    unlocked = inv.unlocked;
    empty = ap empty_value (omega (arith, shrunk));
  }
    where
      shrunk : clients cr ≡ suc (length (registered (pre ++ minus_one ∷ rest)))
      shrunk = rw e (length-registered-split pre rest fd h)

  -- In a registry that is in order, a registered descriptor is removed: the call returns 0,
  -- keeps the registry in order, and what was registered is the removed descriptor with what
  -- still is.
  pub creg_unregister_lem :
      (cr : ClientRegistry) (fd : ℤ)
      → Inv cr
      → fd ≢ minus_one
      → Mem fd (registered cr.fds)
      → (cr' : ClientRegistry) × (creg_unregister sems fd cr ≡ done (pos 0) cr')
        × Inv cr'
        × (cr'.n ≡ cr.n)
        × Perm (registered cr.fds) (fd ∷ registered cr'.fds)
  creg_unregister_lem cr fd inv h m =
      elim (search_from-cases cr.fds cr.n 0 (is_fd fd) (omega arith)) [
        | inl (e, nowhere) ↦ absurd (not-mem_of_NoneOf cr.fds fd nowhere m)
        | inr (pre, x, rest, split, found, same) ↦
            let split' : cr.fds ≡ pre ++ fd ∷ rest = rw (← (int_eq_iff x fd).0 same) split in
            let some_left : 0 < clients cr =
              rw split' (omega (arith, length-registered-split pre rest fd h)) in
            (
              removed cr pre rest,
              unregister_at cr fd pre rest inv some_left split' (found ∙ ap pos (omega arith)),
              unregister_at-Inv cr fd pre rest inv h split',
              refl,
              unregister-perm cr.fds pre rest fd h split',
            )
      ]

  -- In a registry that is in order and has a client, a descriptor that is not in the array is
  -- refused with -1, but the call has taken an item and given a slot that nobody had: the
  -- registry is in order no more.
  pub creg_unregister_absent :
      (cr : ClientRegistry) (fd : ℤ)
      → Inv cr
      → search_from cr.fds cr.n 0 (is_fd fd) ≡ minus_one
      → 0 < clients cr
      → (creg_unregister sems fd cr
          ≡ done minus_one (record cr { items = cr.items - 1; slots = suc (cr.slots) }))
        × ¬ Inv (record cr { items = cr.items - 1; slots = suc (cr.slots) })
  unfolding creg_unregister
  creg_unregister_absent cr fd inv e h = (
    ground (arith, p-suc (cr.items - 1), p-suc 0, v_lem 0, v_lem cr.slots),
    λ inv'. omega (arith, inv.free, inv'.free),
  )

  -- While nobody is registered a call waits.
  pub creg_unregister_empty :
      (cr : ClientRegistry) (fd : ℤ)
      → Inv cr
      → clients cr ≡ 0
      → creg_unregister sems fd cr ≡ blocked cr
  unfolding creg_unregister
  creg_unregister_empty cr fd inv h = ground (arith, p-zero)
