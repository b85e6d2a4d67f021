-- ===== src/Trader/Race.antt =====
-- src/trader.c: two threads in `trader_login` at the same time.
use bourse_server.Base.{
  ℕ, zero, suc, ◌≡◌, inl, inr, sym, Bool-cases, ◌+◌, ◌<◌, refl, ◌∙◌, ap, false, some, none, Option,
  List, [], ◌∷◌, ℤ, pos, M, done, pure, ◌>>=◌, arith, set, set-set, if◌then◌else◌,
}
use bourse_server.Trader.Store.{Mutex, lock_mutex, Trader, Traders, update_self, update_ne}
use bourse_server.Trader.Table.{
  find_named, find_trader, at, nowhere, max_traders, first_available, same_name,
}
use bourse_server.Trader.Lookup.{find_named-fresh, find_named-set, same_name_iff}
use bourse_server.Trader.Session.{check_old_trader_and_login, reserve, publish}
use bourse_server.Trader.Login.{reserved, reserve_lem}

-- What is put into the table under one name is not found under another.
find_named-set_other :
    (h : ℕ → Option Trader) (p : ℕ) (t : Trader) (name : List ℕ)
    → h p ≡ some t
    → same_name t.name name ≡ false
    → (slots : List (Option ℕ)) (i j : ℕ) → find_named h slots i name ≡ nowhere
    → find_named h (set slots j (some p)) i name ≡ nowhere
unfolding find_named
find_named-set_other h p t name e n [] i j f = refl
find_named-set_other h p t name e n (none ∷ slots) i zero f = ground (arith, e, n, f)
find_named-set_other h p t name e n (none ∷ slots) i (suc j) f =
    find_named-set_other h p t name e n slots (suc i) j f
find_named-set_other h p t name e n (some q ∷ slots) i zero f = ground arith
find_named-set_other h p t name e n (some q ∷ slots) i (suc j) f =
    ground (arith, find_named-set_other h p t name e n slots (suc i) j)

-- The trader at `p` is over the descriptor `fd`, under the name.
abbrev pub LoggedIn : ℕ → ℤ → List ℕ → Traders → Type 0
LoggedIn p fd name s = (t : Trader) × (s.heap p ≡ some t) × (t.fd ≡ fd) × (t.name ≡ name)

-- The threads `me` and `me'` get blocks that hold `junk` and `junk'`.
module _ (junk junk' : Trader) (me me' : ℕ) (fd fd' : ℤ) (name name' : List ℕ) where
  -- Both look for their names before either has put a trader into the table.
  unfoldable pub both_ask : M Traders (Option ℕ × Option ℕ)
  both_ask = do
    old ← check_old_trader_and_login me name
    old' ← check_old_trader_and_login me' name'
    pure (old, old')

  -- Then both come to an index before either writes to the table.
  unfoldable pub both_enter : M Traders (Option ℕ × Option ℕ)
  both_enter = do
    r ← reserve junk me fd name
    r' ← reserve junk' me' fd' name'
    p ← publish r
    p' ← publish r'
    pure (p, p')

  module _ (s : Traders) (m m' : Mutex) (j : ℕ) (missing : find_trader name s ≡ nowhere)
      (missing' : find_trader name' s ≡ nowhere) (room : suc s.count < max_traders)
      (slot : first_available s.all_traders 0 ≡ pos j)
      (ready : lock_mutex me junk.trader_mutex ≡ some m)
      (ready' : lock_mutex me' junk'.trader_mutex ≡ some m') (fresh : s.heap s.next ≡ none)
      (fresh' : s.heap (suc s.next) ≡ none) where
    both_ask_lem : both_ask s ≡ done (none, none) s
    unfolding both_ask check_old_trader_and_login
    both_ask_lem = rw (missing, missing') refl

    abbrev first_in : Traders
    first_in = reserved junk me s m fd name j missing (omega arith) slot ready

    abbrev both_in : Traders
    both_in =
        reserved junk' me' first_in m' fd' name' j
          (find_named-fresh s.heap s.next _ fresh s.all_traders 0 name' missing') (omega arith) slot
          ready'

    abbrev both_out : Traders
    both_out = record both_in {
      all_traders = set (set s.all_traders j (some s.next)) j (some (suc s.next));
    }

    both_enter_lem : both_enter s ≡ done (some s.next, some (suc s.next)) both_out
    unfolding both_enter
    both_enter_lem =
        rw
          (
            reserve_lem junk me s m fd name j missing (omega arith) slot ready,
            reserve_lem junk' me' first_in m' fd' name' j
                (find_named-fresh s.heap s.next _ fresh s.all_traders 0 name' missing')
                (omega arith) slot ready',
          )
          refl

    -- The second block is not the first one.
    second_fresh : first_in.heap (suc s.next) ≡ none
    second_fresh = update_ne s.heap s.next (suc s.next) _ (ground arith) ∙ fresh'

    still_missing :
        (other : List ℕ) → find_trader other s ≡ nowhere → find_trader other both_in ≡ nowhere
    still_missing other none_there =
        find_named-fresh first_in.heap (suc s.next) _ second_fresh s.all_traders 0 other
          (find_named-fresh s.heap s.next _ fresh s.all_traders 0 other none_there)

    table : both_out.all_traders ≡ set s.all_traders j (some (suc s.next))
    table = set-set s.all_traders j (some s.next) (some (suc s.next))

    first_kept : both_out.heap s.next ≡ first_in.heap s.next
    first_kept = update_ne first_in.heap (suc s.next) s.next _ (ground arith)

    second_found : find_trader name' both_out ≡ at j (suc s.next)
    second_found =
        ap (λ slots. find_named both_out.heap slots 0 name') table
        ∙ find_named-set both_out.heap (suc s.next) _ name'
            (update_self first_in.heap (suc s.next) _) ((same_name_iff name' name').1 refl)
            s.all_traders 0 j (still_missing name' missing') (slot ∙ ap pos (omega arith))
        ∙ ap (λ k. at k (suc s.next)) (omega arith)

    -- The first trader is found under no name.
    first_lost :
        find_trader name both_out ≡ (if same_name name' name then at j (suc s.next) else nowhere)
    first_lost = elim (Bool-cases (same_name name' name)) [
      | inl same ↦ rw same (
          ap (λ n. find_trader n both_out) (sym ((same_name_iff name' name).0 same)) ∙ second_found)
      | inr apart ↦ rw apart (
          ap (λ slots. find_named both_out.heap slots 0 name) table
          ∙ find_named-set_other both_out.heap (suc s.next) _ name
              (update_self first_in.heap (suc s.next) _) apart s.all_traders 0 j
              (still_missing name missing))
    ]

    -- Two threads log in under names, which may be the same, that are not in the table. The count is
    -- at least two below its limit, the table has a free entry, each thread can lock the mutex in
    -- its new block, and the next two addresses are free. If both look for their names, then both
    -- come to an index, and then both write to the table, both logins succeed, with traders of
    -- their own, both count, and both traders are logged in; but the table has only the second
    -- one. Under the name of the first the second is found, if the names are the same, and
    -- otherwise nobody.
    pub both_login :
        (both_ask s ≡ done (none, none) s)
        × (s' : Traders) × (both_enter s ≡ done (some s.next, some (suc s.next)) s')
        × (s'.count ≡ s.count + 2)
        × (s'.all_traders ≡ set s.all_traders j (some (suc s.next)))
        × LoggedIn s.next fd name s'
        × LoggedIn (suc s.next) fd' name' s'
        × (find_trader name' s' ≡ at j (suc s.next))
        × (find_trader name s' ≡ (if same_name name' name then at j (suc s.next) else nowhere))
    both_login = (
      both_ask_lem,
      both_out,
      both_enter_lem,
      omega arith,
      table,
      (_, first_kept ∙ update_self s.heap s.next _, refl, refl),
      (_, update_self first_in.heap (suc s.next) _, refl, refl),
      second_found,
      first_lost,
    )
