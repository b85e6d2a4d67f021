-- ===== src/Registry/History.antt =====
-- src/client_registry.c: sequences of calls refine a bounded bag of descriptors.
use mathlib.Core.List.Perm
use mathlib.Core.List.{Permᴰ, mem-cons_self}
use mathlib.Core.Logic.{∥∥₁_elim}
use native.Mathlib.Nat.{ℕ_set}
use mathlib.Core.List.{Perm}
use bourse_server.Base.{
  ℕ, suc, ◌<◌, ◌≡◌, refl, ◌∙◌, ap, ◌≢◌, List, [], ◌∷◌, ℤ, pos, minus_one, length, arith, M, map,
  pure, ◌>>=◌, done,
}
use bourse_server.Registry.Defs.{Semaphores, ClientRegistry, creg_register, creg_unregister}
use bourse_server.Registry.Contents.{registered}
use bourse_server.Registry.Invariant.{Inv}
use bourse_server.Registry.Register.{creg_register_lem}
use bourse_server.Registry.Unregister.{creg_unregister_lem}

pub data Call : Type 0 where
  register unregister : ℤ → Call

-- What a client of the module may do when the descriptors `v` are connected, at most `n` at once:
-- a new descriptor while there is room, or the end of one that is connected. The order in which
-- the descriptors connected is forgotten.
pub data Allowed (n : ℕ) : List ℤ → List Call → List ℤ → Type 0 where
  finish : {v w : List ℤ} → Perm v w → Allowed n v [] w
  connect :
      {v w : List ℤ} {cs : List Call} (fd : ℤ)
      → fd ≢ minus_one
      → length v < n
      → Allowed n (fd ∷ v) cs w
      → Allowed n v (register fd ∷ cs) w
  disconnect :
      {v u w : List ℤ} {cs : List Call} (fd : ℤ)
      → fd ≢ minus_one
      → Perm v (fd ∷ u)
      → Allowed n u cs w
      → Allowed n v (unregister fd ∷ cs) w

length-Permᴰ : {v w : List ℤ} → Permᴰ v w → length v ≡ length w
length-Permᴰ Permᴰ.nil = refl
length-Permᴰ (Permᴰ.cons e p) = ap suc (length-Permᴰ p)
length-Permᴰ (Permᴰ.swap e f) = refl
length-Permᴰ (Permᴰ.trans p q) = length-Permᴰ p ∙ length-Permᴰ q

pub length-perm : {v w : List ℤ} → Perm v w → length v ≡ length w
length-perm p = ∥∥₁_elim p (ℕ_set _ _) length-Permᴰ

module _ (sems : Semaphores) where
  abbrev pub call : Call → M ClientRegistry ℤ
  call (register fd) = creg_register sems fd
  call (unregister fd) = creg_unregister sems fd

  -- The results of the calls, in order.
  unfoldable pub run : List Call → M ClientRegistry (List ℤ)
  run [] = pure []
  run (c ∷ cs) = do r ← call c; rs ← run cs; pure (r ∷ rs)

  abbrev pub Refines : ClientRegistry → List Call → List ℤ → Type 0
  Refines cr cs w =
      (cr' : ClientRegistry) × (run cs cr ≡ done (map (λ _. pos 0) cs) cr')
      × Inv cr'
      × Perm (registered cr'.fds) w

  -- From a registry in order that holds the descriptors that are connected, whatever sequence
  -- of registrations and removals is allowed, every call returns 0 without waiting, the
  -- registry is in order at the end, and it holds exactly the descriptors that are then
  -- connected.
  pub run-Refines :
      {n : ℕ} {v w : List ℤ} {cs : List Call} (cr : ClientRegistry)
      → cr.n ≡ n
      → Inv cr
      → Perm (registered cr.fds) v
      → Allowed n v cs w
      → Refines cr cs w
  unfolding run
  run-Refines cr fixed inv same (finish p) = (cr, refl, inv, Perm.trans same p)
  run-Refines cr fixed inv same (connect fd h lt rest) =
      let (cr₁, called, inv₁, kept, grown) =
        creg_register_lem sems cr fd inv h (omega (arith, length-perm same)) in
      let (cr₂, ran, inv₂, end) =
        run-Refines cr₁ (kept ∙ fixed) inv₁ (Perm.trans grown (Perm.cons fd same)) rest in
      (cr₂, rw (called, ran) refl, inv₂, end)
  run-Refines cr fixed inv same (disconnect {u = u} fd h p rest) =
      let before : Perm (registered cr.fds) (fd ∷ u) = Perm.trans same p in
      let (cr₁, called, inv₁, kept, shrunk) =
        creg_unregister_lem sems cr fd inv h ((Perm.mem_iff before).1 mem-cons_self) in
      let (cr₂, ran, inv₂, end) =
        run-Refines cr₁ (kept ∙ fixed) inv₁ (Perm.cons_inv (Perm.trans (Perm.symm shrunk) before))
          rest in
      (cr₂, rw (called, ran) refl, inv₂, end)
