-- ===== src/Trader/Lookup.antt =====
-- src/trader.c: what the loops over `all_traders` find.
use bourse_server.Base.{
  ℕ, zero, suc, ◌+◌, ◌≡◌, refl, ◌∙◌, ap, true, Option, none, some, List, [], ◌∷◌, pos, minus_one,
  arith, inl, inr, ◌⊎◌, ◌↔◌, if◌then◌else◌, get_elem?, set,
}
use bourse_server.Trader.Store.{Trader, update, update_self, update_ne}
use bourse_server.Trader.Table.{at, nowhere, dangling, find_named, same_name, first_available}

find_step_none :
    (h : ℕ → Option Trader) (slots : List (Option ℕ)) (p i : ℕ) (name : List ℕ)
    → h p ≡ none
    → find_named h (some p ∷ slots) i name ≡ dangling
unfolding find_named
find_step_none h slots p i name e = ground arith

pub find_step_some :
    (h : ℕ → Option Trader) (slots : List (Option ℕ)) (p i : ℕ) (name : List ℕ) (t : Trader)
    → h p ≡ some t
    → find_named h (some p ∷ slots) i name
      ≡ (if same_name t.name name then at i p else find_named h slots (suc i) name)
unfolding find_named
find_step_some h slots p i name t e = ground arith

-- A change of a trader that keeps its name changes no search.
pub find_named-update :
    (h : ℕ → Option Trader) (p : ℕ) (t u : Trader)
    → h p ≡ some t
    → u.name ≡ t.name
    → (slots : List (Option ℕ)) (i : ℕ) (name : List ℕ)
    → find_named (update h p (some u)) slots i name ≡ find_named h slots i name
unfolding find_named
find_named-update h p t u e n [] i name = refl
find_named-update h p t u e n (none ∷ slots) i name =
    find_named-update h p t u e n slots (suc i) name
find_named-update h p t u e n (some q ∷ slots) i name = ground (
  arith,
  update_self h p (some u),
  update_ne h p q (some u),
  find_named-update h p t u e n slots (suc i) name,
)

-- Nor does a new object, where the search meets no freed one.
pub find_named-fresh :
    (h : ℕ → Option Trader) (p : ℕ) (c : Option Trader)
    → h p ≡ none
    → (slots : List (Option ℕ)) (i : ℕ) (name : List ℕ) → find_named h slots i name ≡ nowhere
    → find_named (update h p c) slots i name ≡ nowhere
unfolding find_named
find_named-fresh h p c e [] i name f = refl
find_named-fresh h p c e (none ∷ slots) i name f = find_named-fresh h p c e slots (suc i) name f
find_named-fresh h p c e (some q ∷ slots) i name f =
    ground (arith, update_ne h p q c, find_named-fresh h p c e slots (suc i) name)

pub same_name_iff : (a b : List ℕ) → (same_name a b ≡ true) ↔ (a ≡ b)
same_name_iff [] [] = (λ _. refl, λ _. refl)
same_name_iff [] (y ∷ b) = ground arith
same_name_iff (x ∷ a) [] = ground arith
same_name_iff (x ∷ a) (y ∷ b) = ground (arith, same_name_iff a b)

-- The free entry has an index of its own.
pub first_available-cases :
    (slots : List (Option ℕ)) (i : ℕ)
    → (first_available slots i ≡ minus_one)
      ⊎ ((j : ℕ) × (first_available slots i ≡ pos (i + j)) × (get_elem? slots j ≡ some none))
unfolding first_available
first_available-cases [] i = inl refl
first_available-cases (none ∷ slots) i = inr (zero, ap pos (omega arith), refl)
first_available-cases (some q ∷ slots) i = elim (first_available-cases slots (suc i)) [
  | inl e ↦ inl e
  | inr (j, e, free) ↦ inr (suc j, e ∙ ap pos (omega arith), free)
]

-- What stands in the first free entry is found, if no entry before it has its name.
pub find_named-set :
    (h : ℕ → Option Trader) (p : ℕ) (t : Trader) (name : List ℕ)
    → h p ≡ some t
    → same_name t.name name ≡ true
    → (slots : List (Option ℕ)) (i : ℕ) (j : ℕ) → find_named h slots i name ≡ nowhere
    → first_available slots i ≡ pos (i + j)
    → find_named h (set slots j (some p)) i name ≡ at (i + j) p
unfolding find_named first_available
find_named-set h p t name e n [] i j f g = absurd (ground arith)
find_named-set h p t name e n (none ∷ slots) i zero f g = ground arith
find_named-set h p t name e n (none ∷ slots) i (suc j) f g = absurd (ground arith)
find_named-set h p t name e n (some q ∷ slots) i zero f g =
    elim (first_available-cases slots (suc i)) [
      | inl full ↦ absurd (ground arith)
      | inr (j, e', free) ↦ absurd (ground arith)
    ]
find_named-set h p t name e n (some q ∷ slots) i (suc j) f g =
    ground (arith, find_named-set h p t name e n slots (suc i) j)
