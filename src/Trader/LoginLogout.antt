-- ===== src/Trader/LoginLogout.antt =====
-- src/trader.c: logging out, and in again.
use bourse_server.Base.{
  ℕ, suc, ◌≡◌, ◌≢◌, refl, sym, ◌∙◌, ap, false, some, ℤ, pos, minus_one, int_eq, int_eq_iff, inc,
  dec, inc-dec, done, ◌>>◌, arith,
}
use bourse_server.Trader.Store.{
  Mutex, free, held, lock_mutex, unlock_mutex, Trader, Traders, update_self, put,
  unlock_mutex-lock_mutex, lock_lem, assign_lem, unlock_lem, load_lem,
}
use bourse_server.Trader.Table.{find_trader, at}
use bourse_server.Trader.Lookup.{find_named-update}
use bourse_server.Trader.RefCounts.{put-put, trader_unref_lem}
use bourse_server.Trader.Session.{trader_login, trader_logout}
use bourse_server.Trader.Login.{login_returning}

-- A thread that holds a mutex can lock it once more.
lock_again :
    (me : ℕ) (m m' : Mutex)
    → lock_mutex me m ≡ some m'
    → (m'' : Mutex) × (lock_mutex me m' ≡ some m'')
lock_again me free m' e = (held me 1, ground arith)
lock_again me (held o d) m' e = (held o (suc (suc d)), ground arith)

module _ (me p i : ℕ) (s : Traders) (t : Trader) (m : Mutex) (found : find_trader t.name s ≡ at i p)
    (live : s.heap p ≡ some t) (ready : lock_mutex me t.trader_mutex ≡ some m) where
  -- The logout of a trader who is in the table, whose mutex the thread can lock and who has
  -- more than one reference, drops one reference and forgets the descriptor, and nothing else
  -- changes.
  pub trader_logout_lem :
      dec t.ref ≢ pos 0
      → trader_logout me p s ≡ done tt (put p (record t { ref = dec t.ref; fd = minus_one }) s)
  unfolding trader_logout
  trader_logout_lem more =
      let (m', ready') = lock_again me t.trader_mutex m ready in
      rw
        (
          lock_lem p s t live me m ready,
          load_lem p (put p locked s) locked (update_self s.heap p _),
          same_search ∙ found,
          trader_unref_lem me p (put p locked s) locked m' (update_self s.heap p _) ready'
              some_left,
          assign_lem p (put p dropped (put p locked s)) dropped (update_self _ p _) _,
          unlock_lem p (put p out (put p dropped (put p locked s))) out (update_self _ p _) me,
          put-put p out (unlocked out) (put p dropped (put p locked s)),
          put-put p dropped (unlocked out) (put p locked s),
          put-put p locked (unlocked out) s,
          unlock_mutex-lock_mutex me t.trader_mutex m ready,
        )
        refl
    where
      locked : Trader
      locked = record t { trader_mutex = m }

      dropped : Trader
      dropped = record locked { ref = dec t.ref }

      out : Trader
      out = record dropped { fd = minus_one }

      unlocked : Trader → Trader
      unlocked u = record u { trader_mutex = unlock_mutex me u.trader_mutex }

      some_left : int_eq (dec t.ref) (pos 0) ≡ false
      some_left = ground (arith, int_eq_iff (dec t.ref) (pos 0))

      same_search : find_trader t.name (put p locked s) ≡ find_trader t.name s
      same_search = find_named-update s.heap p t locked live refl s.all_traders 0 t.name

-- A trader in the table, with its mutex free and its count of references other than 1, who logs
-- out and in again, by any threads and over any connection, is the same object with the same
-- references, account and entry in the table: only the descriptor differs.
pub login-logout :
    (junk : Trader) (me me' p i : ℕ) (s : Traders) (t : Trader) (fd : ℤ)
    → find_trader t.name s ≡ at i p
    → s.heap p ≡ some t
    → t.trader_mutex ≡ free
    → t.ref ≢ pos 1
    → (trader_logout me p >> trader_login junk me' fd t.name) s
      ≡ done (some p) (put p (record t { fd = fd }) s)
login-logout junk me me' p i s t fd found live idle more =
    rw (trader_logout_lem me p i s t (held me 0) found live (rw idle refl) some_left) (
      login_returning junk me' p i (put p out s) out (held me' 0) fd t.name (same_search ∙ found)
        (update_self s.heap p _) (rw idle refl) refl
      ∙ ap (done (some p)) (
          put-put p out (record t { ref = inc (dec t.ref); fd = fd }) s
          ∙ ap (λ r. put p (record t { ref = r; fd = fd }) s) (inc-dec t.ref)))
  where
    out : Trader
    out = record t { ref = dec t.ref; fd = minus_one }

    some_left : dec t.ref ≢ pos 0
    some_left e = more (sym (inc-dec t.ref) ∙ ap inc e)

    same_search : find_trader t.name (put p out s) ≡ find_trader t.name s
    same_search = find_named-update s.heap p t out live refl s.all_traders 0 t.name
