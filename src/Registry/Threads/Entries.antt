-- ===== src/Registry/Threads/Entries.antt =====
-- src/client_registry.c: the steps of the threads, and what is in the array.
use mathlib.Core.List.{Perm}
use mathlib.Core.List.Perm
use bourse_server.Base.{
  ℕ, zero, suc, ◌+◌, ◌<◌, ◌≡◌, refl, sym, ◌∙◌, ap, subst, ◌≢◌, ◌⊎◌, inl, inr, Bool, true, List, ◌∷◌,
  ◌++◌, ℤ, pos, minus_one, length, int_eq_iff, set, arith, ◌==◌, ==_iff, Bool-cases, move,
  move_self, move_ne, total-two,
}
use bourse_server.Registry.Defs.{ClientRegistry, search_from, search_for_empty_slot, is_fd, is_free}
use bourse_server.Registry.Contents.{registered, search_from-cases, set-split}
use bourse_server.Registry.Invariant.{register-perm, unregister-perm, length-split}
use bourse_server.Registry.Threads.Steps.{
  Counter, Move, search_free, store, search_own, search_missing, clear, Shared,
}
use bourse_server.Registry.Threads.Order.{lock_of, entry_of, entered, present, Knows, IsOrderly}
use bourse_server.Registry.Threads.Present.{present-move, lock-Knows}
use bourse_server.Registry.Threads.Moves.{Mover, not_missing, no_index}

entered-cancel :
    {l l' : List ℤ} (k : ℕ) (fd : ℤ) → Perm (entered k fd l) (entered k fd l') → Perm l l'
entered-cancel zero fd p = p
entered-cancel (suc k) fd p = Perm.cons_inv p

set_at :
    {fds : List ℤ} {k : ℕ} (pre rest : List ℤ) (x v : ℤ)
    → fds ≡ pre ++ x ∷ rest
    → k ≡ length pre
    → set fds k v ≡ pre ++ v ∷ rest
set_at pre rest x v split index = rw (split, index) (set-split pre rest x v)

pos_inj : {a b : ℕ} → pos a ≡ pos b → a ≡ b
pos_inj e = cc

module _ {n : ℕ} {fds : ℕ → ℤ} {s : Shared} (ok : IsOrderly n fds s) (i : ℕ) (lt : i < n) where
  open s use {registry, threads}

  moved :
      {p p' : Counter}
      → Mover ok i lt p p'
      → Perm
          (entered (entry_of p) (fds i) (present n fds (move threads i p')))
          (entered (entry_of p') (fds i) (present n fds threads))
  moved {p} {p'} m =
      subst
        (λ c.
          Perm (entered (entry_of c) (fds i) (present n fds (move threads i p')))
            (entered (entry_of p') (fds i) (present n fds threads)))
        m.here (present-move fds threads n i p' lt)

  own : {p p' : Counter} → Mover ok i lt p p' → Knows (fds i) p registry.fds
  own m = subst (λ c. Knows (fds i) c registry.fds) m.here (ok.knows i lt)

  -- The thread takes its descriptor into the array between the two searches, and out of it.
  pub Move-entries :
      {p p' : Counter} {cr' : ClientRegistry}
      → fds i ≢ minus_one
      → Move (fds i) registry p cr' p'
      → Mover ok i lt p p'
      → Perm (registered cr'.fds) (present n fds (move threads i p'))
  Move-entries h store m =
      let (pre, rest, split, index) = own m in
      rw (set_at pre rest minus_one (fds i) split index) (
        Perm.trans (register-perm registry.fds pre rest (fds i) h split)
          (Perm.trans (Perm.cons (fds i) ok.entries) (Perm.symm (moved m))))
  Move-entries h clear m =
      let (pre, rest, split, index) = own m in
      rw (set_at pre rest (fds i) minus_one split index) (
        Perm.cons_inv (
          Perm.trans (Perm.symm (unregister-perm registry.fds pre rest (fds i) h split))
            (Perm.trans ok.entries (Perm.symm (moved m)))))
  Move-entries h (search_missing e) m = absurd (not_missing ok i lt m.here e)
  Move-entries {p} h mv m =
      Perm.trans ok.entries (Perm.symm (entered-cancel (entry_of p) (fds i) (moved m)))

  pub Move-size :
      {p p' : Counter} {cr' : ClientRegistry}
      → Move (fds i) registry p cr' p'
      → Mover ok i lt p p'
      → length cr'.fds ≡ cr'.n
  Move-size store m =
      let (pre, rest, split, index) = own m in
      rw (set_at pre rest minus_one (fds i) split index)
        (length-split pre rest (fds i) minus_one ∙ ap length (sym split) ∙ ok.size)
  Move-size clear m =
      let (pre, rest, split, index) = own m in
      rw (set_at pre rest (fds i) minus_one split index)
        (length-split pre rest minus_one (fds i) ∙ ap length (sym split) ∙ ok.size)
  Move-size mv m = ok.size

  search_knows :
      {k : ℕ} (test : ℤ → Bool)
      → search_from registry.fds registry.n 0 test ≡ pos k
      → (pre : List ℤ) × (x : ℤ) × (rest : List ℤ) × (registry.fds ≡ pre ++ x ∷ rest)
        × (k ≡ length pre)
        × (test x ≡ true)
  search_knows {k} test e =
      elim (search_from-cases registry.fds registry.n 0 test (omega (arith, ok.size))) [
        | inl (lost, nowhere) ↦ absurd (no_index e lost)
        | inr (pre, x, rest, split, index, holds) ↦
            let at_x : k ≡ 0 + length pre = pos_inj (sym e ∙ index) in
            (pre, x, rest, split, omega (arith, at_x), holds)
      ]

  Knows-self :
      {p p' : Counter} {cr' : ClientRegistry}
      → Move (fds i) registry p cr' p'
      → Mover ok i lt p p'
      → Knows (fds i) p' cr'.fds
  unfolding search_for_empty_slot
  Knows-self (search_free e) m =
      let (pre, x, rest, split, index, holds) = search_knows is_free e in
      (pre, rest, rw (sym ((int_eq_iff x minus_one).0 holds)) split, index)
  Knows-self (search_own e) m =
      let (pre, x, rest, split, index, holds) = search_knows (is_fd (fds i)) e in
      (pre, rest, rw (sym ((int_eq_iff x (fds i)).0 holds)) split, index)
  Knows-self mv m = tt

  untouched :
      {p p' : Counter} {cr' : ClientRegistry}
      → Move (fds i) registry p cr' p'
      → (cr'.fds ≡ registry.fds) ⊎ (lock_of p ≡ 1)
  untouched store = inr refl
  untouched clear = inr refl
  untouched mv = inl refl

  pub Move-Knows :
      {p p' : Counter} {cr' : ClientRegistry}
      → Move (fds i) registry p cr' p'
      → Mover ok i lt p p'
      → (j : ℕ) → j < n
      → Knows (fds j) (move threads i p' j) cr'.fds
  Move-Knows {p} {p'} {cr'} mv m j hj = elim (Bool-cases (j == i)) [
    | inl self ↦
        let same : j ≡ i = (==_iff j i).0 self in
        rw (same, move_self i threads p') (Knows-self mv m)
    | inr other ↦ rw (move_ne i threads p' j other) (elim (untouched mv) [
      | inl kept ↦ rw kept (ok.knows j hj)
      | inr inside ↦ lock-Knows (fds j) cr'.fds (threads j) (
          omega (
            arith,
            inside,
            ok.lock,
            ap lock_of m.here,
            total-two lock_of n j i threads hj lt other,
          ))
    ])
  ]
