-- ===== src/Trader/Newcomers.antt =====
-- src/trader.c: the table with one more trader.
use bourse_server.Base.{
  ℕ, zero, suc, ◌+◌, ◌<◌, ◌≡◌, refl, ◌∙◌, ap, inl, inr, false, Option, some, none, List, [], ◌∷◌,
  pos, arith, length, set, Bool-cases, ◌==◌, ==_iff,
}
use bourse_server.Trader.Store.{Trader, update, update_self, update_ne}
use bourse_server.Trader.Table.{nowhere, find_named, same_name, first_available}
use bourse_server.Trader.Lookup.{
  find_step_some, find_named-fresh, same_name_iff, first_available-cases,
}
use bourse_server.Trader.Entries.{
  IsSettled, Entries, Missing, Missing-of, Missing-head, Missing-tail, taken,
}

pub not_fresh :
    (h : ℕ → Option Trader) (p q : ℕ) (v : Trader) → h p ≡ none → h q ≡ some v → (q == p) ≡ false
not_fresh h p q v unused there = grind (arith, ==_iff q p)

-- A new object at an address that no entry has.
pub Entries-fresh :
    (h : ℕ → Option Trader) (p : ℕ) (c : Option Trader) (slots : List (Option ℕ))
    → h p ≡ none
    → Entries h slots
    → Entries (update h p c) slots
Entries-fresh h p c [] unused e = tt
Entries-fresh h p c (none ∷ slots) unused e = Entries-fresh h p c slots unused e
Entries-fresh h p c (some q ∷ slots) unused ((v, there, good, once), e) = (
  (
    v,
    update_ne h p q c (not_fresh h p q v unused there) ∙ there,
    good,
    λ i. find_named-fresh h p c unused slots i v.name (once i),
  ),
  Entries-fresh h p c slots unused e,
)

find_tail :
    (h : ℕ → Option Trader) (slots : List (Option ℕ)) (q i : ℕ) (name : List ℕ)
    → find_named h (some q ∷ slots) i name ≡ nowhere
    → find_named h slots (suc i) name ≡ nowhere
unfolding find_named
find_tail h slots q i name e = ground arith

-- A search passes over a new entry of another name.
find_named-set_other :
    (h : ℕ → Option Trader) (p : ℕ) (t : Trader) (name : List ℕ)
    → h p ≡ some t
    → same_name t.name name ≡ false
    → (slots : List (Option ℕ)) (i j : ℕ) → find_named h slots i name ≡ nowhere
    → find_named h (set slots j (some p)) i name ≡ nowhere
unfolding find_named
find_named-set_other h p t name live other [] i j gone = gone
find_named-set_other h p t name live other (none ∷ slots) i zero gone = ground arith
find_named-set_other h p t name live other (none ∷ slots) i (suc j) gone =
    find_named-set_other h p t name live other slots (suc i) j gone
find_named-set_other h p t name live other (some q ∷ slots) i zero gone =
    ground (arith, find_tail h slots q i name gone)
find_named-set_other h p t name live other (some q ∷ slots) i (suc j) gone =
    ground (arith, find_named-set_other h p t name live other slots (suc i) j)

pub same_name_comm : (a b : List ℕ) → same_name a b ≡ false → same_name b a ≡ false
same_name_comm a b e = elim (Bool-cases (same_name b a)) [
  | inl same ↦ absurd (grind (arith, same_name_iff a b, same_name_iff b a))
  | inr other ↦ other
]

-- A new trader, under a name that no entry has, in the first free entry.
pub Entries-set :
    (h : ℕ → Option Trader) (p : ℕ) (t : Trader)
    → h p ≡ some t
    → IsSettled t
    → (slots : List (Option ℕ)) (i j : ℕ) → first_available slots i ≡ pos (i + j)
    → Missing h slots t.name
    → Entries h slots
    → Entries h (set slots j (some p))
unfolding first_available find_named
Entries-set h p t live ok [] i j slot gone e = e
Entries-set h p t live ok (none ∷ slots) i zero slot gone e =
    ((t, live, ok, Missing-of h slots t.name 1 (gone 0)), e)
Entries-set h p t live ok (none ∷ slots) i (suc j) slot gone e = absurd (ground arith)
Entries-set h p t live ok (some q ∷ slots) i zero slot gone e =
    elim (first_available-cases slots (suc i)) [
      | inl full ↦ absurd (ground arith)
      | inr (j, e', empty) ↦ absurd (ground arith)
    ]
Entries-set h p t live ok (some q ∷ slots) i (suc j) slot gone ((v, there, good, once), e) = (
  (
    v,
    there,
    good,
    λ k.
        find_named-set_other h p t v.name live
          (same_name_comm v.name t.name (Missing-head h slots q v t.name there gone)) slots k j
          (once k),
  ),
  Entries-set h p t live ok slots (suc i) j (slot ∙ ap pos (omega arith))
      (Missing-tail h slots q v t.name there gone) e,
)

-- There is a free entry, unless all are taken.
pub first_available-free :
    (slots : List (Option ℕ)) (i p : ℕ)
    → taken slots < length slots
    → (j : ℕ) × (first_available slots i ≡ pos (i + j))
      × (taken (set slots j (some p)) ≡ suc (taken slots))
unfolding first_available
first_available-free [] i p h = absurd (omega arith)
first_available-free (none ∷ slots) i p h = (0, ap pos (omega arith), refl)
first_available-free (some q ∷ slots) i p h =
    let (j, e, more) = first_available-free slots (suc i) p (omega arith) in
    (suc j, e ∙ ap pos (omega arith), ap suc more)

-- A search for another name meets neither the new object nor the new entry.
find_named-fresh_other :
    (h : ℕ → Option Trader) (p : ℕ) (c : Option Trader)
    → h p ≡ none
    → (slots : List (Option ℕ)) (i : ℕ) (name : List ℕ) → Entries h slots
    → find_named (update h p c) slots i name ≡ find_named h slots i name
unfolding find_named
find_named-fresh_other h p c unused [] i name e = refl
find_named-fresh_other h p c unused (none ∷ slots) i name e =
    find_named-fresh_other h p c unused slots (suc i) name e
find_named-fresh_other h p c unused (some q ∷ slots) i name ((v, there, good, once), e) =
    rw
      (
        find_step_some h slots q i name v there,
        find_step_some (update h p c) slots q i name v
            (update_ne h p q c (not_fresh h p q v unused there) ∙ there),
        find_named-fresh_other h p c unused slots (suc i) name e,
      )
      refl

find_named-set_same :
    (h : ℕ → Option Trader) (p : ℕ) (t : Trader) (name : List ℕ)
    → h p ≡ some t
    → same_name t.name name ≡ false
    → (slots : List (Option ℕ)) (i j : ℕ) → first_available slots i ≡ pos (i + j)
    → find_named h (set slots j (some p)) i name ≡ find_named h slots i name
unfolding find_named first_available
find_named-set_same h p t name live other [] i j slot = refl
find_named-set_same h p t name live other (none ∷ slots) i zero slot = ground arith
find_named-set_same h p t name live other (none ∷ slots) i (suc j) slot = absurd (ground arith)
find_named-set_same h p t name live other (some q ∷ slots) i zero slot =
    elim (first_available-cases slots (suc i)) [
      | inl full ↦ absurd (ground arith)
      | inr (j, e', empty) ↦ absurd (ground arith)
    ]
find_named-set_same h p t name live other (some q ∷ slots) i (suc j) slot =
    ground (arith, find_named-set_same h p t name live other slots (suc i) j)

pub find_named-join :
    (h : ℕ → Option Trader) (p : ℕ) (t : Trader) (name : List ℕ) (slots : List (Option ℕ)) (j : ℕ)
    → h p ≡ none
    → same_name t.name name ≡ false
    → first_available slots 0 ≡ pos j
    → Entries h slots
    → find_named (update h p (some t)) (set slots j (some p)) 0 name ≡ find_named h slots 0 name
find_named-join h p t name slots j unused other slot e =
    find_named-set_same (update h p (some t)) p t name (update_self h p (some t)) other slots 0 j
      (slot ∙ ap pos (omega arith))
    ∙ find_named-fresh_other h p (some t) unused slots 0 name e
