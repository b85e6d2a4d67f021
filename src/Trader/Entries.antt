-- ===== src/Trader/Entries.antt =====
-- src/trader.c: what holds of the entries of `all_traders` between calls.
use bourse_server.Base.{
  ℕ, suc, ◌≤◌, ◌≡◌, refl, sym, ◌∙◌, ap, ◌⊎◌, inl, inr, true, false, Option, some, none, List, [],
  ◌∷◌, ℤ, pos, negsuc, minus_one, int_eq, arith, if◌then◌else◌, Bool-cases, ◌==◌, ==_iff,
}
use bourse_server.Trader.Store.{free, Trader, update, update_self, update_ne}
use bourse_server.Trader.Table.{at, nowhere, find_named, same_name}
use bourse_server.Trader.Lookup.{find_step_some, find_named-update, same_name_iff}

-- The references that are counted.
abbrev pub references : ℤ → ℕ
references (pos n) = n
references (negsuc n) = 0

-- Those that must be: one for the table, and one for the thread that serves the trader.
abbrev pub owners : Trader → ℕ
owners t = if int_eq t.fd minus_one then 1 else 2

-- A trader between calls.
pub record IsSettled (t : Trader) : Type 0 where
  pub idle : t.trader_mutex ≡ free
  pub owned : owners t ≤ references t.ref

-- No entry has the name, from whatever index the table is counted.
abbrev pub Missing : (ℕ → Option Trader) → List (Option ℕ) → List ℕ → Type 0
Missing h slots name = (i : ℕ) → find_named h slots i name ≡ nowhere

-- Every entry is a settled trader, and no two have the same name.
abbrev pub Entries : (ℕ → Option Trader) → List (Option ℕ) → Type 0
Entries h [] = Unit {0}
Entries h (none ∷ slots) = Entries h slots
Entries h (some p ∷ slots) =
    ((t : Trader) × (h p ≡ some t) × IsSettled t × Missing h slots t.name) × Entries h slots

-- What a search finds.
pub find_named-cases :
    (h : ℕ → Option Trader) (slots : List (Option ℕ)) (i : ℕ) (name : List ℕ)
    → Entries h slots
    → (find_named h slots i name ≡ nowhere)
      ⊎ ((j p : ℕ) × (t : Trader) × (find_named h slots i name ≡ at j p)
          × (h p ≡ some t)
          × (t.name ≡ name)
          × IsSettled t)
unfolding find_named
find_named-cases h [] i name e = inl refl
find_named-cases h (none ∷ slots) i name e = find_named-cases h slots (suc i) name e
find_named-cases h (some p ∷ slots) i name ((t, live, ok, once), e) =
    elim (Bool-cases (same_name t.name name)) [
      | inl same ↦ inr (
        i,
        p,
        t,
        rw (find_step_some h slots p i name t live, same) refl,
        live,
        (same_name_iff t.name name).0 same,
        ok,
      )
      | inr other ↦
          rw (find_step_some h slots p i name t live, other)
            (find_named-cases h slots (suc i) name e)
    ]

-- The index from which the table is counted does not matter.
find_nowhere :
    (h : ℕ → Option Trader) (slots : List (Option ℕ)) (name : List ℕ) (i j : ℕ)
    → find_named h slots i name ≡ nowhere
    → find_named h slots j name ≡ nowhere
unfolding find_named
find_nowhere h [] name i j e = refl
find_nowhere h (none ∷ slots) name i j e = find_nowhere h slots name (suc i) (suc j) e
find_nowhere h (some p ∷ slots) name i j e =
    ground (arith, find_nowhere h slots name (suc i) (suc j))

pub Missing-of :
    (h : ℕ → Option Trader) (slots : List (Option ℕ)) (name : List ℕ) (i : ℕ)
    → find_named h slots i name ≡ nowhere
    → Missing h slots name
Missing-of h slots name i e j = find_nowhere h slots name i j e

-- A search passes over an entry of another name.
Missing-cons :
    (h : ℕ → Option Trader) (slots : List (Option ℕ)) (p : ℕ) (t : Trader) (name : List ℕ)
    → h p ≡ some t
    → same_name t.name name ≡ false
    → Missing h slots name
    → Missing h (some p ∷ slots) name
Missing-cons h slots p t name live other rest i =
    rw (find_step_some h slots p i name t live, other) (rest (suc i))

pub Missing-head :
    (h : ℕ → Option Trader) (slots : List (Option ℕ)) (p : ℕ) (t : Trader) (name : List ℕ)
    → h p ≡ some t
    → Missing h (some p ∷ slots) name
    → same_name t.name name ≡ false
Missing-head h slots p t name live gone = elim (Bool-cases (same_name t.name name)) [
  | inl same ↦ absurd (grind (arith, gone 0, find_step_some h slots p 0 name t live))
  | inr other ↦ other
]

pub Missing-tail :
    (h : ℕ → Option Trader) (slots : List (Option ℕ)) (p : ℕ) (t : Trader) (name : List ℕ)
    → h p ≡ some t
    → Missing h (some p ∷ slots) name
    → Missing h slots name
Missing-tail h slots p t name live gone = Missing-of h slots name 1 (
    sym (find_step_some h slots p 0 name t live ∙ rw (Missing-head h slots p t name live gone) refl)
    ∙ gone 0)

-- The object at an address has one name.
pub same_object :
    (h : ℕ → Option Trader) (p q : ℕ) (v t : Trader)
    → (q == p) ≡ true
    → h q ≡ some v
    → h p ≡ some t
    → t.name ≡ v.name
same_object h p q v t here there live =
    ap name_of (sym live ∙ ap h (sym ((==_iff q p).0 here)) ∙ there)
  where
    name_of : Option Trader → List ℕ
    name_of none = []
    name_of (some t) = t.name

-- A change of a trader that keeps its name and leaves it settled.
pub Entries-update :
    (h : ℕ → Option Trader) (p : ℕ) (t u : Trader)
    → h p ≡ some t
    → u.name ≡ t.name
    → IsSettled u
    → (slots : List (Option ℕ)) → Entries h slots
    → Entries (update h p (some u)) slots
Entries-update h p t u live same ok [] e = tt
Entries-update h p t u live same ok (none ∷ slots) e = Entries-update h p t u live same ok slots e
Entries-update h p t u live same ok (some q ∷ slots) ((v, there, good, once), e) = (
  elim (Bool-cases (q == p)) [
    | inl here ↦ (
      u,
      ap (update h p (some u)) ((==_iff q p).0 here) ∙ update_self h p (some u),
      ok,
      λ i.
          find_named-update h p t u live same slots i u.name
          ∙ ap (find_named h slots i) (same ∙ same_object h p q v t here there live)
          ∙ once i,
    )
    | inr other ↦ (
      v,
      update_ne h p q (some u) other ∙ there,
      good,
      λ i. find_named-update h p t u live same slots i v.name ∙ once i,
    )
  ],
  Entries-update h p t u live same ok slots e,
)

-- The number of entries that are taken.
abbrev pub taken : List (Option ℕ) → ℕ
taken [] = 0
taken (none ∷ slots) = taken slots
taken (some p ∷ slots) = suc (taken slots)
