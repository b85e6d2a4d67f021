-- ===== src/Trader/Login.antt =====
-- src/trader.c: logging in, as a new trader and as one who has been here before.
use bourse_server.Base.{
  ℕ, suc, ◌≡◌, ◌≢◌, ◌≤◌, ◌<◌, refl, ◌∙◌, ap, true, false, some, none, Option, List, ℤ, pos,
  minus_one, int_eq, int_eq_iff, inc, done, leb, arith, set,
}
use bourse_server.Trader.Store.{
  Mutex, free, held, lock_mutex, Trader, Traders, update, update_self, update-update, put,
  assign_lem, load_lem,
}
use bourse_server.Trader.Table.{
  find_trader, at, nowhere, max_traders, first_available, get_first_available_index,
}
use bourse_server.Trader.Lookup.{find_named-fresh, find_named-set, same_name_iff}
use bourse_server.Trader.RefCounts.{put-put, trader_ref_lem}
use bourse_server.Trader.Session.{trader_login, reserve}

module _ (junk : Trader) (me p i : ℕ) (s : Traders) (t : Trader) (m : Mutex) (fd : ℤ)
    (name : List ℕ) (found : find_trader name s ≡ at i p) (live : s.heap p ≡ some t)
    (ready : lock_mutex me t.trader_mutex ≡ some m) where
  -- A name that is found in the table, of a trader who is logged out and whose mutex the thread
  -- can lock, is logged in again: the same object, with its balance and its inventory, one more
  -- reference and the new descriptor.
  pub login_returning :
      t.fd ≡ minus_one
      → trader_login junk me fd name s
        ≡ done (some p) (put p (record t { ref = inc t.ref; fd = fd }) s)
  unfolding trader_login
  login_returning out =
      rw
        (
          found,
          trader_ref_lem me p s t m live ready,
          load_lem p (put p raised s) raised (update_self s.heap p _),
          gone,
          assign_lem p (put p raised s) raised (update_self s.heap p _) _,
        )
        (ap (done (some p)) (put-put p raised _ s))
    where
      raised : Trader
      raised = record t { ref = inc t.ref }

      gone : int_eq t.fd minus_one ≡ true
      gone = rw out refl

  -- A name that is found in the table, of a trader who is logged in and whose mutex the thread
  -- can lock, is refused; but one more reference is counted.
  pub login_again :
      t.fd ≢ minus_one
      → trader_login junk me fd name s ≡ done none (put p (record t { ref = inc t.ref }) s)
  unfolding trader_login
  login_again there =
      rw
        (
          found,
          trader_ref_lem me p s t m live ready,
          load_lem p (put p raised s) raised (update_self s.heap p _),
          online,
        )
        refl
    where
      raised : Trader
      raised = record t { ref = inc t.ref }

      online : int_eq t.fd minus_one ≡ false
      online = ground (arith, int_eq_iff t.fd minus_one)

-- Once `count` has reached the limit a name that is not in the table is refused, and nothing
-- changes.
pub login_full :
    (junk : Trader) (me : ℕ) (fd : ℤ) (name : List ℕ) (s : Traders)
    → find_trader name s ≡ nowhere
    → max_traders ≤ s.count
    → trader_login junk me fd name s ≡ done none s
unfolding trader_login reserve
login_full junk me fd name s missing full = rw (missing, too_many) refl
  where
    too_many : leb max_traders s.count ≡ true
    too_many = ground arith

module _ (junk : Trader) (me : ℕ) (s : Traders) (m : Mutex) (fd : ℤ) (name : List ℕ) (j : ℕ)
    (missing : find_trader name s ≡ nowhere) (room : s.count < max_traders)
    (slot : first_available s.all_traders 0 ≡ pos j)
    (ready : lock_mutex me junk.trader_mutex ≡ some m) where
  -- The object of a new trader: the count of references is that of the uninitialised block
  -- and 2 more.
  abbrev pub newcomer : Trader
  newcomer = record {
    ref = inc (inc junk.ref);
    fd = fd;
    balance = 0;
    inventory = 0;
    trader_mutex = free;
    name = name;
  }

  abbrev pub joined : Traders
  joined = record s {
    heap = update s.heap s.next (some newcomer);
    next = suc s.next;
    all_traders = set s.all_traders j (some s.next);
    count = suc s.count;
  }

  abbrev raised : ℤ → Trader
  raised r = record junk { ref = r }

  abbrev counted : Traders
  counted = record s {
    heap = update s.heap s.next (some junk);
    next = suc s.next;
    count = suc s.count;
  }

  -- The new object is there, and not in the table yet.
  abbrev pub reserved : Traders
  reserved = record s {
    heap = update s.heap s.next (some newcomer);
    next = suc s.next;
    count = suc s.count;
  }

  pub reserve_lem : reserve junk me fd name s ≡ done (some (s.next, pos j)) reserved
  unfolding reserve get_first_available_index
  reserve_lem =
      rw
        (
          few,
          trader_ref_lem me s.next counted junk m (update_self s.heap s.next _) ready,
          trader_ref_lem me s.next (put s.next once counted) once m (update_self _ s.next _) ready,
          assign_lem s.next (put s.next twice (put s.next once counted)) twice
              (update_self _ s.next _) _,
          assign_lem s.next (put s.next named (put s.next twice (put s.next once counted))) named
              (update_self _ s.next _) _,
          slot,
        )
        (λ i. done (some (s.next, pos j)) (record reserved { heap = one_object i }))
    where
      once : Trader
      once = raised (inc junk.ref)

      twice : Trader
      twice = raised (inc (inc junk.ref))

      named : Trader
      named = record twice { fd = fd; balance = 0; inventory = 0; name = name }

      few : leb max_traders s.count ≡ false
      few = ground arith

      heap_junk : ℕ → Option Trader
      heap_junk = update s.heap s.next (some junk)

      heap_once : ℕ → Option Trader
      heap_once = update heap_junk s.next (some once)

      heap_twice : ℕ → Option Trader
      heap_twice = update heap_once s.next (some twice)

      one_object :
          update (update heap_twice s.next (some named)) s.next (some newcomer)
          ≡ update s.heap s.next (some newcomer)
      one_object =
          update-update heap_twice s.next (some named) (some newcomer)
          ∙ update-update heap_once s.next (some twice) (some newcomer)
          ∙ update-update heap_junk s.next (some once) (some newcomer)
          ∙ update-update s.heap s.next (some junk) (some newcomer)

  -- A new name gets a new object, with an empty account, in the first free entry of the table.
  pub login_new_lem : trader_login junk me fd name s ≡ done (some s.next) joined
  unfolding trader_login
  login_new_lem = rw (missing, reserve_lem) refl

  -- The new trader is then found under its name.
  pub joined-found : s.heap s.next ≡ none → find_trader name joined ≡ at j s.next
  joined-found fresh =
      find_named-set (update s.heap s.next (some newcomer)) s.next newcomer name
        (update_self s.heap s.next _) ((same_name_iff name name).1 refl) s.all_traders 0 j
        (find_named-fresh s.heap s.next (some newcomer) fresh s.all_traders 0 name missing)
        (slot ∙ ap pos (omega arith))
      ∙ ap (λ k. at k s.next) (omega arith)

-- With room in the table, the first login of a name over a descriptor other than -1 creates a
-- trader with an empty account, in the first free entry, and two more references than the new
-- block happens to hold. If the next call is a login under the name too, by any thread, it is
-- refused, and counts one more reference, which is all that it changes. The mutex in the new block
-- can be locked, and no object was at the block's address.
pub login_once :
    (junk : Trader) (me me' : ℕ) (s : Traders) (m : Mutex) (fd fd' : ℤ) (name : List ℕ) (j : ℕ)
    → find_trader name s ≡ nowhere
    → s.count < max_traders
    → first_available s.all_traders 0 ≡ pos j
    → lock_mutex me junk.trader_mutex ≡ some m
    → s.heap s.next ≡ none
    → fd ≢ minus_one
    → (s' : Traders) × (trader_login junk me fd name s ≡ done (some s.next) s')
      × (s'.heap s.next
          ≡ some (record {
            ref = inc (inc junk.ref);
            fd = fd;
            balance = 0;
            inventory = 0;
            trader_mutex = free;
            name = name;
          }))
      × (find_trader name s' ≡ at j s.next)
      × (trader_login junk me' fd' name s'
          ≡ done none (
              put s.next
                (record {
                  ref = inc (inc (inc junk.ref));
                  fd = fd;
                  balance = 0;
                  inventory = 0;
                  trader_mutex = free;
                  name = name;
                })
                s'))
login_once junk me me' s m fd fd' name j missing room slot ready fresh real = (
  joined junk me s m fd name j missing room slot ready,
  login_new_lem junk me s m fd name j missing room slot ready,
  update_self s.heap s.next _,
  joined-found junk me s m fd name j missing room slot ready fresh,
  login_again junk me' s.next j (joined junk me s m fd name j missing room slot ready)
      (newcomer junk me s m fd name j missing room slot ready) (held me' 0) fd' name
      (joined-found junk me s m fd name j missing room slot ready fresh)
      (update_self s.heap s.next _) refl real,
)
