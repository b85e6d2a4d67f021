-- ===== src/Trader/RefCounts.antt =====
-- src/trader.c: reference counts and accounts, call by call.
use bourse_server.Base.{
  ℕ, ◌≡◌, ◌≢◌, refl, ◌∙◌, ap, true, false, none, some, pos, int_eq, inc, dec, done, ◌>>◌, ◌>>=◌,
  dec-inc, int_eq_iff, fault, arith,
}
use bourse_server.Trader.Store.{
  Mutex, lock_mutex, unlock_mutex, Trader, Traders, update, update_self, update-update, update_same,
  put, unlock_mutex-lock_mutex, lock, unlock, assign, lock_lem, assign_lem, unlock_lem, load_lem,
  free_lem, unlock_fault,
}
use bourse_server.Trader.Table.{trader_ref, trader_unref, find_trader, set_slot, at}
use bourse_server.Trader.Lookup.{find_named-update}

-- A pair of updates of one object is the second.
pub put-put : (p : ℕ) (t u : Trader) (s : Traders) → put p u (put p t s) ≡ put p u s
put-put p t u s = λ i. record s { heap = update-update s.heap p (some t) (some u) i }

pub put_same : (p : ℕ) (t : Trader) (s : Traders) → s.heap p ≡ some t → put p t s ≡ s
put_same p t s live = λ i. record s { heap = update_same s.heap p (some t) live i }

module _ (me p : ℕ) (s : Traders) (t : Trader) (m : Mutex) (live : s.heap p ≡ some t)
    (ready : lock_mutex me t.trader_mutex ≡ some m) where
  -- `t` while the call holds its mutex.
  abbrev locked : Trader
  locked = record t { trader_mutex = m }

  abbrev unlocked : Trader → Trader
  unlocked u = record u { trader_mutex = unlock_mutex me u.trader_mutex }

  abbrev dropped : Trader
  dropped = record locked { ref = dec t.ref }

  abbrev raised : Trader
  raised = record locked { ref = inc t.ref }

  undone : unlock_mutex me m ≡ t.trader_mutex
  undone = unlock_mutex-lock_mutex me t.trader_mutex m ready

  -- A call that assigns to the object between a lock and an unlock.
  pub assign-locked :
      (f : Trader → Trader)
      → (lock me p >> (assign p f >> unlock me p)) s ≡ done tt (put p (unlocked (f locked)) s)
  assign-locked f =
      rw
        (
          lock_lem p s t live me m ready,
          assign_lem p (put p locked s) locked (update_self s.heap p _) f,
          unlock_lem p (put p (f locked) (put p locked s)) (f locked) (update_self _ p _) me,
          put-put p (f locked) (unlocked (f locked)) (put p locked s),
          put-put p locked (unlocked (f locked)) s,
        )
        refl

  pub trader_ref_lem : trader_ref me p s ≡ done p (put p (record t { ref = inc t.ref }) s)
  unfolding trader_ref
  trader_ref_lem =
      rw
        (
          lock_lem p s t live me m ready,
          assign_lem p (put p locked s) locked (update_self s.heap p _) _,
          unlock_lem p (put p raised (put p locked s)) raised (update_self _ p _) me,
          put-put p raised (unlocked raised) (put p locked s),
          put-put p locked (unlocked raised) s,
        )
        (ap (λ m'. done p (put p (record t { ref = inc t.ref; trader_mutex = m' }) s)) undone)

  -- A count that does not fall to 0 is all that `trader_unref` changes.
  pub trader_unref_lem :
      int_eq (dec t.ref) (pos 0) ≡ false
      → trader_unref me p s ≡ done tt (put p (record t { ref = dec t.ref }) s)
  unfolding trader_unref
  trader_unref_lem more =
      rw
        (
          lock_lem p s t live me m ready,
          assign_lem p (put p locked s) locked (update_self s.heap p _) _,
          load_lem p (put p dropped (put p locked s)) dropped (update_self _ p _),
          more,
          unlock_lem p (put p dropped (put p locked s)) dropped (update_self _ p _) me,
          put-put p dropped (unlocked dropped) (put p locked s),
          put-put p locked (unlocked dropped) s,
        )
        (ap (λ m'. done tt (put p (record t { ref = dec t.ref; trader_mutex = m' }) s)) undone)

  -- Dropping the last reference of a trader in the table, whose mutex the thread can lock,
  -- frees the object that holds the mutex, which is then unlocked: undefined behaviour.
  pub trader_unref_last :
      {i : ℕ} → dec t.ref ≡ pos 0 → find_trader t.name s ≡ at i p → trader_unref me p s ≡ fault
  unfolding trader_unref
  trader_unref_last {i} last found =
      rw
        (
          lock_lem p s t live me m ready,
          assign_lem p (put p locked s) locked (update_self s.heap p _) _,
          load_lem p (put p dropped (put p locked s)) dropped (update_self _ p _),
          zero_left,
          same_search ∙ found,
          free_lem p (put p dropped (put p locked s)) dropped (update_self _ p _),
          unlock_fault me p (set_slot (pos i) none (freed (put p dropped (put p locked s))))
              (update_self (update (update s.heap p (some locked)) p (some dropped)) p none),
        )
        refl
    where
      freed : Traders → Traders
      freed u = record u { heap = update u.heap p none }

      zero_left : int_eq (dec t.ref) (pos 0) ≡ true
      zero_left = rw last refl

      same_search : find_trader t.name (put p dropped (put p locked s)) ≡ find_trader t.name s
      same_search =
          find_named-update (update s.heap p (some locked)) p locked dropped
            (update_self s.heap p _) refl s.all_traders 0 t.name
          ∙ find_named-update s.heap p t locked live refl s.all_traders 0 t.name

-- A reference that is taken and dropped again, on an object whose mutex the thread can lock and
-- whose count is not 0, leaves everything as it was.
pub trader_unref-trader_ref :
    (me p : ℕ) (s : Traders) (t : Trader) (m : Mutex)
    → s.heap p ≡ some t
    → lock_mutex me t.trader_mutex ≡ some m
    → t.ref ≢ pos 0
    → (trader_ref me p >>= trader_unref me) s ≡ done tt s
trader_unref-trader_ref me p s t m live ready more = rw (trader_ref_lem me p s t m live ready) (
    trader_unref_lem me p (put p more_refs s) more_refs m (update_self s.heap p _) ready
      (rw (dec-inc t.ref) some_left)
    ∙ ap (done tt) (
        put-put p more_refs (record t { ref = dec (inc t.ref) }) s
        ∙ rw (dec-inc t.ref) (put_same p t s live)))
  where
    more_refs : Trader
    more_refs = record t { ref = inc t.ref }

    some_left : int_eq t.ref (pos 0) ≡ false
    some_left = ground (arith, int_eq_iff t.ref (pos 0))
