-- ===== src/Registry/Register.antt =====
-- src/client_registry.c: `creg_register`.
use mathlib.Core.List.{Perm}
use bourse_server.Base.{
  suc, ◌-◌, ◌<◌, ◌≡◌, refl, sym, ◌∙◌, ap, ◌≢◌, inl, inr, List, ◌∷◌, ◌++◌, ℤ, pos, minus_one,
  int_eq_iff, length, arith, done, blocked,
}
use bourse_server.Registry.Defs.{
  Semaphores, ClientRegistry, creg_register, search_from, is_free, search_for_empty_slot,
}
use bourse_server.Registry.Contents.{
  registered, search_from-cases, set-split, length-registered_full,
}
use bourse_server.Registry.Invariant.{
  Inv, clients, register-perm, length-split, length-registered-split,
}

module _ (sems : Semaphores) where
  open sems use {p, v, p-zero, p-suc, v_lem}

  register_at :
      (cr : ClientRegistry) (fd : ℤ) (pre rest : List ℤ)
      → Inv cr
      → clients cr < cr.n
      → cr.fds ≡ pre ++ minus_one ∷ rest
      → search_from cr.fds cr.n 0 is_free ≡ pos (length pre)
      → creg_register sems fd cr
        ≡ done (pos 0) (record cr {
          fds = pre ++ fd ∷ rest;
          count = pos (suc (clients cr));
          count_mutex = 0;
          items = suc (cr.items);
          slots = cr.slots - 1;
        })
  unfolding creg_register search_for_empty_slot
  register_at cr fd pre rest inv h e f = ground (
    arith,
    p-suc (cr.slots - 1),
    p-suc 0,
    v_lem 0,
    v_lem cr.items,
    set-split pre rest minus_one fd,
  )

  register_at-Inv :
      (cr : ClientRegistry) (fd : ℤ) (pre rest : List ℤ)
      → Inv cr
      → fd ≢ minus_one
      → clients cr < cr.n
      → cr.fds ≡ pre ++ minus_one ∷ rest
      → Inv (record cr {
        fds = pre ++ fd ∷ rest;
        count = pos (suc (clients cr));
        count_mutex = 0;
        items = suc (cr.items);
        slots = cr.slots - 1;
      })
  register_at-Inv cr fd pre rest inv h lt e = record {
    size = ground (arith, length-split pre rest fd minus_one);
    counted = ap pos (sym grown);
    free = omega (arith, grown);
    full = omega (arith, grown);
    unlocked = inv.unlocked;
    empty = rw grown (ground arith);
  }
    where
      grown : length (registered (pre ++ fd ∷ rest)) ≡ suc (clients cr)
      grown = rw e (length-registered-split pre rest fd h)

  -- In a registry that is in order, with a free slot, the registration of a descriptor other
  -- than -1 returns 0, keeps the registry in order and adds the descriptor to those that are
  -- registered, which stay as they are.
  pub creg_register_lem :
      (cr : ClientRegistry) (fd : ℤ)
      → Inv cr
      → fd ≢ minus_one
      → clients cr < cr.n
      → (cr' : ClientRegistry) × (creg_register sems fd cr ≡ done (pos 0) cr')
        × Inv cr'
        × (cr'.n ≡ cr.n)
        × Perm (registered cr'.fds) (fd ∷ registered cr.fds)
  creg_register_lem cr fd inv h lt = elim (search_from-cases cr.fds cr.n 0 is_free (omega arith)) [
    | inl (e, none_free) ↦ absurd (omega (arith, length-registered_full cr.fds none_free))
    | inr (pre, x, rest, split, found, free) ↦
        let split' : cr.fds ≡ pre ++ minus_one ∷ rest =
          rw (← (int_eq_iff x minus_one).0 free) split in
        (
          _,
          register_at cr fd pre rest inv lt split' (found ∙ ap pos (omega arith)),
          register_at-Inv cr fd pre rest inv h lt split',
          refl,
          register-perm cr.fds pre rest fd h split',
        )
  ]

  -- In a registry that is in order, with every slot taken, a registration waits and has changed
  -- nothing: it does not return the -1 of the full array.
  pub creg_register_full :
      (cr : ClientRegistry) (fd : ℤ)
      → Inv cr
      → clients cr ≡ cr.n
      → creg_register sems fd cr ≡ blocked cr
  unfolding creg_register
  creg_register_full cr fd inv h = ground (arith, p-zero)
