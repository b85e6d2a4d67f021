-- ===== src/Trader/Table.antt =====
-- src/trader.c: the table `all_traders` and the reference counts.
use bourse_server.Base.{
  ℕ, suc, Bool, Option, none, some, List, [], ◌∷◌, ℤ, pos, minus_one, int_eq, inc, dec, M, fault,
  pure, ◌>>=◌, ◌>>◌, modify, get, replicate, set, list_eq, ◌==◌, not, if◌then◌else◌, take,
}
use bourse_server.Trader.Store.{Trader, Traders, load, assign, free_trader, lock, unlock}

abbrev pub max_traders : ℕ
max_traders = 64

-- `strcmp(a, b) == 0`.
abbrev pub same_name : List ℕ → List ℕ → Bool
same_name a b = list_eq ◌==◌ a b

pub data Found : Type 0 where
  at : ℕ → ℕ → Found
  nowhere dangling : Found

-- The loop `all_traders[i] != NULL && strcmp(all_traders[i]->name, name) == 0` over the table
-- from index `i` on: the index and the trader at which it stops. `dangling` is an entry whose
-- object has been freed.
unfoldable pub find_named : (ℕ → Option Trader) → List (Option ℕ) → ℕ → List ℕ → Found
find_named heap [] i name = nowhere
find_named heap (none ∷ slots) i name = find_named heap slots (suc i) name
find_named heap (some p ∷ slots) i name =
    let later = find_named heap slots (suc i) name in
    elim (heap p) [ none ↦ dangling | some t ↦ if same_name t.name name then at i p else later ]

abbrev pub find_trader : List ℕ → Traders → Found
find_trader name s = find_named s.heap s.all_traders 0 name

unfoldable pub first_available : List (Option ℕ) → ℕ → ℤ
first_available [] i = minus_one
first_available (none ∷ slots) i = pos i
first_available (some p ∷ slots) i = first_available slots (suc i)

unfoldable pub get_first_available_index : Traders → ℤ
get_first_available_index s = first_available s.all_traders 0

-- `all_traders[i] = p`.
abbrev pub set_slot : ℤ → Option ℕ → Traders → Traders
set_slot (pos i) p s = record s { all_traders = set s.all_traders i p }
set_slot _ p s = s

unfoldable pub trader_init : M Traders ℤ
trader_init = modify (λ s. record s { all_traders = replicate max_traders none }) >> pure (pos 0)

module _ (me : ℕ) where
  -- One round of the loop of `trader_fini`.
  abbrev pub fini_slot : Option ℕ → M Traders (Unit {0})
  fini_slot none = pure tt
  fini_slot (some p) = do lock me p; free_trader p; unlock me p

  unfoldable pub fini_slots : List (Option ℕ) → M Traders (Unit {0})
  fini_slots [] = pure tt
  fini_slots (slot ∷ slots) = fini_slot slot >> fini_slots slots

  -- The entries are not written to, so the loop runs over the first `count` of them.
  unfoldable pub trader_fini : M Traders (Unit {0})
  unfolding fini_slots
  trader_fini = do slots ← get (λ s. take s.count s.all_traders); fini_slots slots

  unfoldable pub trader_ref : ℕ → M Traders ℕ
  trader_ref p = do lock me p; assign p (λ t. record t { ref = inc t.ref }); unlock me p; pure p

  abbrev pub remove_found : ℕ → Found → M Traders (Unit {0})
  remove_found p (at i q) = do free_trader p; modify (set_slot (pos i) none)
  remove_found p nowhere = pure tt
  remove_found p dangling = λ s. fault

  unfoldable pub remove_trader_if_empty : ℕ → M Traders (Unit {0})
  remove_trader_if_empty p = do
    t ← load p
    if not (int_eq t.ref (pos 0))
        then pure tt
        else do found ← get (find_trader t.name); remove_found p found

  unfoldable pub trader_unref : ℕ → M Traders (Unit {0})
  unfolding remove_trader_if_empty
  trader_unref p = do
    lock me p
    assign p (λ t. record t { ref = dec t.ref })
    remove_trader_if_empty p
    unlock me p
