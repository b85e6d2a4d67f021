-- ===== src/Registry/Invariant.antt =====
-- src/client_registry.c: what holds of a registry between calls, and what each call does to it.
use mathlib.Core.List.{Perm, perm_middle}
use bourse_server.Base.{
  ℕ, suc, ◌+◌, ◌≡◌, refl, ap, ◌≢◌, List, [], ◌∷◌, ◌++◌, ℤ, pos, minus_one, length, length-append,
  arith, if◌then◌else◌, ◌==◌,
}
use bourse_server.Registry.Defs.{Semaphores, ClientRegistry, fd_setsize, creg_init}
use bourse_server.Registry.Contents.{registered, registered-split, registered-split_free}

-- The number of registered descriptors.
abbrev pub clients : ClientRegistry → ℕ
clients cr = length (registered cr.fds)

-- 1 while nobody is registered.
abbrev pub empty_value : ℕ → ℕ
empty_value k = if k == 0 then 1 else 0

-- No thread is inside a call, and nobody has been let through `creg_wait_for_empty`.
pub record Inv (cr : ClientRegistry) : Type 0 where
  pub size : length cr.fds ≡ cr.n
  pub counted : cr.count ≡ pos (clients cr)
  pub free : cr.slots + clients cr ≡ cr.n
  pub full : cr.items ≡ clients cr
  pub unlocked : cr.mutex ≡ 1
  pub empty : cr.count_mutex ≡ empty_value (clients cr)

-- What a slot that goes from free to taken, or back, does to the contents.
pub register-perm :
    (fds pre rest : List ℤ) (fd : ℤ)
    → fd ≢ minus_one
    → fds ≡ pre ++ minus_one ∷ rest
    → Perm (registered (pre ++ fd ∷ rest)) (fd ∷ registered fds)
register-perm fds pre rest fd h e =
    rw (registered-split pre rest fd h, e, registered-split_free pre rest)
      (perm_middle (registered pre) (registered rest))

pub unregister-perm :
    (fds pre rest : List ℤ) (fd : ℤ)
    → fd ≢ minus_one
    → fds ≡ pre ++ fd ∷ rest
    → Perm (registered fds) (fd ∷ registered (pre ++ minus_one ∷ rest))
unregister-perm fds pre rest fd h e =
    rw (e, registered-split pre rest fd h, registered-split_free pre rest)
      (perm_middle (registered pre) (registered rest))

pub length-split :
    (pre rest : List ℤ) (x y : ℤ) → length (pre ++ x ∷ rest) ≡ length (pre ++ y ∷ rest)
length-split [] rest x y = refl
length-split (z ∷ pre) rest x y = ap suc (length-split pre rest x y)

-- The taken slot counts once.
pub length-registered-split :
    (pre rest : List ℤ) (fd : ℤ)
    → fd ≢ minus_one
    → length (registered (pre ++ fd ∷ rest)) ≡ suc (length (registered (pre ++ minus_one ∷ rest)))
length-registered-split pre rest fd h =
    rw (registered-split pre rest fd h, registered-split_free pre rest)
      (omega (
        arith,
        length-append (registered pre) (fd ∷ registered rest),
        length-append (registered pre) (registered rest),
      ))

-- A new registry is in order, and empty.
pub creg_init-Inv :
    (sems : Semaphores) → Inv (creg_init sems) × (registered (creg_init sems).fds ≡ [])
unfolding creg_init
creg_init-Inv sems = (
  record {
    size = refl;
    counted = refl;
    free = omega (arith, sems.sem_init_lem fd_setsize);
    full = sems.sem_init_lem 0;
    unlocked = sems.sem_init_lem 1;
    empty = sems.sem_init_lem 1;
  },
  refl,
)
