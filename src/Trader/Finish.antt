-- ===== src/Trader/Finish.antt =====
-- src/trader.c: `trader_init` and `trader_fini`.
use bourse_server.Base.{
  ℕ, zero, suc, ◌≡◌, refl, Option, some, none, List, [], ◌∷◌, ◌++◌, pos, done, fault, take,
  replicate,
}
use bourse_server.Trader.Store.{
  Mutex, lock_mutex, Trader, Traders, update, update_self, put, lock_lem, free_lem, unlock_fault,
}
use bourse_server.Trader.Table.{
  trader_fini, fini_slots, fini_slot, trader_init, max_traders, find_named, find_trader, nowhere,
}

abbrev pub AllNull : List (Option ℕ) → Type 0
AllNull [] = Unit {0}
AllNull (slot ∷ slots) = (slot ≡ none) × AllNull slots

module _ (me : ℕ) where
  fini_slots-null :
      (slots : List (Option ℕ)) (s : Traders) → AllNull slots → fini_slots me slots s ≡ done tt s
  unfolding fini_slots
  fini_slots-null [] s h = refl
  fini_slots-null (slot ∷ slots) s h = rw h.0 (fini_slots-null slots s h.1)

  fini_slot-fault :
      (p : ℕ) (s : Traders) (t : Trader) (m : Mutex)
      → s.heap p ≡ some t
      → lock_mutex me t.trader_mutex ≡ some m
      → fini_slot me (some p) s ≡ fault
  fini_slot-fault p s t m live ready =
      rw
        (
          lock_lem p s t live me m ready,
          free_lem p (put p locked s) locked (update_self s.heap p _),
          unlock_fault me p (record s { heap = update (update s.heap p (some locked)) p none })
              (update_self _ p none),
        )
        refl
    where
      locked : Trader
      locked = record t { trader_mutex = m }

  fini_slots-fault :
      (pre rest : List (Option ℕ)) (p : ℕ) (s : Traders)
      → AllNull pre
      → fini_slot me (some p) s ≡ fault
      → fini_slots me (pre ++ some p ∷ rest) s ≡ fault
  unfolding fini_slots
  fini_slots-fault [] rest p s h bad = rw bad refl
  fini_slots-fault (slot ∷ pre) rest p s h bad = rw h.0 (fini_slots-fault pre rest p s h.1 bad)

  -- With no trader in the part of the table that is walked, `trader_fini` does nothing.
  pub trader_fini-null :
      (s : Traders) → AllNull (take s.count s.all_traders) → trader_fini me s ≡ done tt s
  unfolding trader_fini
  trader_fini-null s h = fini_slots-null (take s.count s.all_traders) s h

  -- The first trader in the part of the table that `trader_fini` walks, if its mutex can be
  -- locked, is freed, and its mutex then unlocked: undefined behaviour.
  pub trader_fini-fault :
      (s : Traders) (pre rest : List (Option ℕ)) (p : ℕ) (t : Trader) (m : Mutex)
      → take s.count s.all_traders ≡ pre ++ some p ∷ rest
      → AllNull pre
      → s.heap p ≡ some t
      → lock_mutex me t.trader_mutex ≡ some m
      → trader_fini me s ≡ fault
  unfolding trader_fini
  trader_fini-fault s pre rest p t m e h live ready =
      rw e (fini_slots-fault pre rest p s h (fini_slot-fault p s t m live ready))

pub search-empty :
    (heap : ℕ → Option Trader) (n i : ℕ) (name : List ℕ)
    → find_named heap (replicate n none) i name ≡ nowhere
unfolding find_named
search-empty heap zero i name = refl
search-empty heap (suc n) i name = search-empty heap n (suc i) name

-- `trader_init` returns 0, after it no name is found, whatever the table held, and `count`
-- stays as it was.
pub trader_init_lem :
    (s : Traders) (name : List ℕ)
    → (s' : Traders) × (trader_init s ≡ done (pos 0) s')
      × (find_trader name s' ≡ nowhere)
      × (s'.count ≡ s.count)
unfolding trader_init
trader_init_lem s name = (
  record s { all_traders = replicate max_traders none },
  refl,
  search-empty s.heap max_traders 0 name,
  refl,
)
