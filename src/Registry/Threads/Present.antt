-- ===== src/Registry/Threads/Present.antt =====
-- src/client_registry.c: the descriptors of the threads that have them in the array.
use mathlib.Core.List.{Perm, Mem, mem-cons_self, mem-cons_of_mem}
use mathlib.Core.List.Perm
use bourse_server.Base.{
  ℕ, zero, suc, ◌+◌, ◌≤◌, ◌<◌, ◌≡◌, refl, ◌∙◌, ap, inl, inr, List, ℤ, length, arith, ◌==◌, ==_iff,
  Bool-cases, move, move_self, move_ne, total,
}
use bourse_server.Registry.Threads.Steps.{Counter, connected, found, at_entry}
use bourse_server.Registry.Threads.Order.{
  slot_of, lock_of, counts_of, marks_of, entry_of, entered, present, Knows,
}

pub entry-le : (c : Counter) → entry_of c ≤ slot_of c
entry-le connected = omega arith
entry-le c = omega arith

entry_bit : (c : Counter) → entry_of c ≤ 1
entry_bit connected = omega arith
entry_bit c = omega arith

length-entered : (k : ℕ) (fd : ℤ) (l : List ℤ) → k ≤ 1 → length (entered k fd l) ≡ k + length l
length-entered zero fd l bit = omega arith
length-entered (suc k) fd l bit = omega (arith, bit)

mem-entered : {x : ℤ} {l : List ℤ} (k : ℕ) (fd : ℤ) → Mem x l → Mem x (entered k fd l)
mem-entered zero fd m = m
mem-entered (suc k) fd m = mem-cons_of_mem _ m

entered-perm :
    {l l' : List ℤ} (k : ℕ) (fd : ℤ) → Perm l l' → Perm (entered k fd l) (entered k fd l')
entered-perm zero fd p = p
entered-perm (suc k) fd p = Perm.cons fd p

entered-entered :
    (l : List ℤ) (k m : ℕ) (x y : ℤ)
    → Perm (entered k x (entered m y l)) (entered m y (entered k x l))
entered-entered l zero m x y = Perm.refl _
entered-entered l (suc k) zero x y = Perm.refl _
entered-entered l (suc k) (suc m) x y = Perm.swap _ _ _

module _ (fds : ℕ → ℤ) (threads : ℕ → Counter) where
  pub length-present : (n : ℕ) → length (present n fds threads) ≡ total entry_of n threads
  unfolding present total
  length-present zero = refl
  length-present (suc n) =
      length-entered (entry_of (threads n)) (fds n) (present n fds threads) (entry_bit (threads n))
      ∙ ap (λ k. entry_of (threads n) + k) (length-present n)

  pub mem-present :
      (n i : ℕ) → i < n → entry_of (threads i) ≡ 1 → Mem (fds i) (present n fds threads)
  unfolding present
  mem-present zero i lt has = absurd (omega arith)
  mem-present (suc n) i lt has = elim (Bool-cases (n == i)) [
    | inl here ↦ let same : n ≡ i = (==_iff n i).0 here in rw (same, has) mem-cons_self
    | inr other ↦
        mem-entered (entry_of (threads n)) (fds n)
          (mem-present n i (ground (arith, ==_iff n i)) has)
  ]

  present-above :
      (n i : ℕ) (c : Counter) → n ≤ i → present n fds (move threads i c) ≡ present n fds threads
  unfolding present
  present-above zero i c h = refl
  present-above (suc n) i c h =
      rw (move_ne i threads c n (ground (arith, ==_iff n i)), present-above n i c (omega arith))
        refl

  -- What one thread does to the list.
  pub present-move :
      (n i : ℕ) (c : Counter)
      → i < n
      → Perm
          (entered (entry_of (threads i)) (fds i) (present n fds (move threads i c)))
          (entered (entry_of c) (fds i) (present n fds threads))
  unfolding present
  present-move zero i c lt = absurd (omega arith)
  present-move (suc n) i c lt = elim (Bool-cases (n == i)) [
    | inl here ↦
        let same : n ≡ i = (==_iff n i).0 here in
        rw (same, move_self i threads c, present-above i i c (omega arith))
          (entered-entered _ (entry_of (threads i)) (entry_of c) (fds i) (fds i))
    | inr other ↦ rw (move_ne i threads c n other) (
        Perm.trans (entered-entered _ (entry_of (threads i)) (entry_of (threads n)) (fds i) (fds n))
          (Perm.trans
            (entered-perm (entry_of (threads n)) (fds n)
              (present-move n i c (ground (arith, ==_iff n i))))
            (entered-entered _ (entry_of (threads n)) (entry_of c) (fds n) (fds i))))
  ]

-- A thread outside the mutex counts where it marks.
pub marks-counts : (c : Counter) → lock_of c ≡ 0 → marks_of c ≡ counts_of c
marks-counts connected h = refl
marks-counts c h = omega (arith, h)

-- A thread outside the mutex knows nothing of the array.
pub lock-Knows : (fd : ℤ) (entries : List ℤ) (c : Counter) → lock_of c ≡ 0 → Knows fd c entries
lock-Knows fd entries (found i) h = absurd (omega arith)
lock-Knows fd entries (at_entry i) h = absurd (omega arith)
lock-Knows fd entries c h = tt
