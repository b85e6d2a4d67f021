-- ===== src/Registry/Values.antt =====
-- src/client_registry.c: P and V on the semaphores of a registry.
use bourse_server.Base.{ℕ, suc, ◌≡◌, ◌∙◌, ap, arith, done, blocked}
use bourse_server.Registry.Defs.{Semaphores, ClientRegistry, Sem, value, with_value, wait}

module _ (sems : Semaphores) (s : Sem) (cr : ClientRegistry) where
  pub wait-zero : value s cr ≡ 0 → wait sems s cr ≡ blocked cr
  wait-zero e = ground (arith, ap sems.p e ∙ sems.p-zero)

  pub wait-suc : (k : ℕ) → value s cr ≡ suc k → wait sems s cr ≡ done tt (with_value s k cr)
  wait-suc k e = ground (arith, ap sems.p e ∙ sems.p-suc k)
