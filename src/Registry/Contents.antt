-- ===== src/Registry/Contents.antt =====
-- The descriptors that the array of a registry holds, and what the loops over it find.
use mathlib.Core.List.{Mem, mem-cons, not-mem-nil}
use mathlib.Core.HLevel.{⊥_prop}
use mathlib.Core.Logic.Or
use bourse_server.Base.{
  ℕ, zero, suc, ◌+◌, ◌≤◌, ◌≡◌, refl, ◌∙◌, ap, ◌≢◌, ◌⊎◌, inl, inr, Bool, true, false, List, [], ◌∷◌,
  ◌++◌, ℤ, pos, minus_one, int_eq, int_eq_iff, length, set, arith, if◌then◌else◌, Bool-cases,
}
use bourse_server.Registry.Defs.{search_from, is_free, is_fd}

-- The entries that are not -1.
abbrev pub registered : List ℤ → List ℤ
registered [] = []
registered (fd ∷ fds) = if int_eq fd minus_one then registered fds else fd ∷ registered fds

abbrev pub NoneOf : (ℤ → Bool) → List ℤ → Type 0
NoneOf test [] = Unit {0}
NoneOf test (fd ∷ fds) = (test fd ≡ false) × NoneOf test fds

-- A place at which the test holds.
abbrev pub Split : (ℤ → Bool) → List ℤ → ℕ → ℤ → Type 0
Split test fds i r =
    (pre : List ℤ) × (x : ℤ) × (post : List ℤ) × (fds ≡ pre ++ x ∷ post)
    × (r ≡ pos (i + length pre))
    × (test x ≡ true)

pub search_from-cases :
    (fds : List ℤ) (k i : ℕ) (test : ℤ → Bool)
    → length fds ≤ k
    → ((search_from fds k i test ≡ minus_one) × NoneOf test fds)
      ⊎ Split test fds i (search_from fds k i test)
unfolding search_from
search_from-cases [] k i test h = inl (refl, tt)
search_from-cases (fd ∷ fds) zero i test h = absurd (omega arith)
search_from-cases (fd ∷ fds) (suc k) i test h = elim (Bool-cases (test fd)) [
  | inl here ↦ inr ([], fd, fds, refl, rw here (ap pos (omega arith)), here)
  | inr not_here ↦ elim (search_from-cases fds k (suc i) test (omega arith)) [
    | inl (e, nowhere) ↦ inl (rw not_here e, (not_here, nowhere))
    | inr (pre, x, post, split, found, holds) ↦
        inr
          (fd ∷ pre, x, post, ap (◌∷◌ fd) split, rw not_here (found ∙ ap pos (omega arith)), holds)
  ]
]

pub set-split :
    (pre post : List ℤ) (x v : ℤ) → set (pre ++ x ∷ post) (length pre) v ≡ pre ++ v ∷ post
set-split [] post x v = refl
set-split (y ∷ pre) post x v = ap (◌∷◌ y) (set-split pre post x v)

pub registered-append : (xs ys : List ℤ) → registered (xs ++ ys) ≡ registered xs ++ registered ys
registered-append [] ys = refl
registered-append (x ∷ xs) ys = ground (arith, registered-append xs ys)

pub length-registered-le : (fds : List ℤ) → length (registered fds) ≤ length fds
length-registered-le [] = omega arith
length-registered-le (x ∷ fds) = ground (arith, length-registered-le fds)

-- With no free entry every entry is registered.
pub length-registered_full :
    (fds : List ℤ) → NoneOf is_free fds → length (registered fds) ≡ length fds
length-registered_full [] h = refl
length-registered_full (x ∷ fds) h = rw h.0 (ap suc (length-registered_full fds h.1))

-- An entry that holds `fd` counts as `fd`.
pub registered-split :
    (pre post : List ℤ) (fd : ℤ)
    → fd ≢ minus_one
    → registered (pre ++ fd ∷ post) ≡ registered pre ++ fd ∷ registered post
registered-split pre post fd h =
    rw (registered-append pre (fd ∷ post)) (ground (arith, int_eq_iff fd minus_one))

pub registered-split_free :
    (pre post : List ℤ) → registered (pre ++ minus_one ∷ post) ≡ registered pre ++ registered post
registered-split_free pre post = registered-append pre (minus_one ∷ post)

pub not-mem_of_NoneOf : (fds : List ℤ) (fd : ℤ) → NoneOf (is_fd fd) fds → ¬ Mem fd (registered fds)
not-mem_of_NoneOf [] fd h m = not-mem-nil m
not-mem_of_NoneOf (x ∷ fds) fd h m = elim (Bool-cases (int_eq x minus_one)) [
  | inl free ↦ not-mem_of_NoneOf fds fd h.1 (rw free at m)
  | inr used ↦
      Or.elim ⊥_prop (mem-cons.0 (rw used at m)) (λ e. ground (arith, int_eq_iff x fd))
        (not-mem_of_NoneOf fds fd h.1)
]
