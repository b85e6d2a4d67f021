-- ===== src/Trader/Directory/Joins.antt =====
-- src/trader.c: the first login of a trader, beside the operation of the directory.
use mathlib.Core.Path.{fun_ext}
use bourse_server.Base.{
  ℕ, suc, ◌≤◌, ◌<◌, ◌≡◌, ◌≢◌, refl, sym, ◌∙◌, ap, inl, inr, true, false, some, none, List, ℤ, pos,
  minus_one, int_eq, int_eq_iff, arith, length-set, if◌then◌else◌, Bool-cases, ◌==◌, ==_iff, leb,
  done,
}
use bourse_server.Trader.Store.{held, lock_mutex, Trader, Traders, update, update_self, update_ne}
use bourse_server.Trader.Table.{nowhere, find_trader, same_name, first_available, max_traders}
use bourse_server.Trader.Lookup.{same_name_iff, find_named-fresh}
use bourse_server.Trader.Login.{login_full, login_new_lem, joined, joined-found, newcomer}
use bourse_server.Trader.Entries.{IsSettled, find_named-cases, Missing-of, taken}
use bourse_server.Trader.Newcomers.{
  Entries-fresh, Entries-set, first_available-free, find_named-join, not_fresh, same_name_comm,
}
use bourse_server.Trader.Directory.Spec.{
  Directory, login, accepted, refused, set_account, apply, log_in, open_account,
}
use bourse_server.Trader.Directory.Calls.{perform}
use bourse_server.Trader.Directory.View.{IsSound, view, account_at, account_of, account_at_live}
use bourse_server.Trader.Directory.Refines.{IsUsable, Meets}

module _ (junk : Trader) (me : ℕ) (usable : IsUsable junk) (s : Traders) (sound : IsSound s)
    (fd : ℤ) (name : List ℕ) (real : fd ≢ minus_one) (missing : find_trader name s ≡ nowhere) where
  unknown : (view s).accounts name ≡ none
  unfolding view
  unknown = rw missing refl

  first_login : apply (login fd name) (view s) ≡ open_account fd name (view s)
  unfolding apply
  first_login = ap (λ o. log_in fd name o (view s)) unknown

  nothing : max_traders ≤ s.count → apply (login fd name) (view s) ≡ (refused, view s)
  unfolding view
  nothing full = first_login ∙ rw too_many refl
    where
      too_many : leb max_traders s.count ≡ true
      too_many = ground arith

  full-Meets : max_traders ≤ s.count → Meets junk me (login fd name) s
  unfolding perform
  full-Meets full = (
    s,
    rw (login_full junk me fd name s missing full) (ap (λ x. done x.0 s) (sym (nothing full))),
    sound,
    ap (λ x. x.1) (sym (nothing full)),
  )

  ready : lock_mutex me junk.trader_mutex ≡ some (held me 0)
  ready = rw usable.unlocked refl

  fresh : s.heap s.next ≡ none
  fresh = sound.unused s.next (omega arith)

  module _ (room : s.count < max_traders) (j : ℕ)
      (slot : first_available s.all_traders 0 ≡ pos j) where
    abbrev trader : Trader
    trader = newcomer junk me s (held me 0) fd name j missing room slot ready

    abbrev after : Traders
    after = joined junk me s (held me 0) fd name j missing room slot ready

    trader-IsSettled : IsSettled trader
    trader-IsSettled = record { idle = refl; owned = rw usable.counts (ground arith) }

    joined-IsSound : taken after.all_traders ≡ suc (taken s.all_traders) → IsSound after
    joined-IsSound more = record {
      size = length-set s.all_traders j (some s.next) ∙ sound.size;
      entries =
          Entries-set (update s.heap s.next (some trader)) s.next trader
            (update_self s.heap s.next _) trader-IsSettled s.all_traders 0 j
            (slot ∙ ap pos (omega arith))
            (Missing-of _ s.all_traders name 0
              (find_named-fresh s.heap s.next (some trader) fresh s.all_traders 0 name missing))
            (Entries-fresh s.heap s.next (some trader) s.all_traders fresh sound.entries);
      counted = omega (arith, more, sound.counted);
      unused = λ q h. elim (Bool-cases (q == s.next)) [
        | inl here ↦ absurd (ground (arith, ==_iff q s.next))
        | inr other ↦ update_ne s.heap s.next q (some trader) other ∙ sound.unused q (omega arith)
      ];
    }

    connected : int_eq fd minus_one ≡ false
    connected = ground (arith, int_eq_iff fd minus_one)

    account_joined :
        (n : List ℕ)
        → account_at after.heap (find_trader n after) ≡ (
            if same_name n name
            then some (account_of trader)
            else account_at s.heap (find_trader n s))
    account_joined n = elim (Bool-cases (same_name n name)) [
      | inl hit ↦
          rw
            (
              (same_name_iff n name).0 hit,
              joined-found junk me s (held me 0) fd name j missing room slot ready fresh,
              (same_name_iff name name).1 refl,
            )
            (account_at_live after.heap j s.next trader (update_self s.heap s.next _))
      | inr miss ↦
          let same_search : find_trader n after ≡ find_trader n s =
            find_named-join s.heap s.next trader n s.all_traders j fresh
              (same_name_comm n name miss) slot sound.entries in
          elim (find_named-cases s.heap s.all_traders 0 n sound.entries) [
            | inl gone ↦ rw (same_search, miss, gone) refl
            | inr (k, q, v, at_q, there, named, ok) ↦
                rw (same_search, miss, at_q)
                  (account_at_live after.heap k q v (
                      update_ne s.heap s.next q (some trader)
                        (not_fresh s.heap s.next q v fresh there)
                      ∙ there)
                    ∙ sym (account_at_live s.heap k q v there))
          ]
    ]

    abbrev opened : Directory
    opened =
        set_account name (record { balance = 0; inventory = 0; session = some fd })
          (record (view s) { members = suc s.count })

    new_account : apply (login fd name) (view s) ≡ (accepted, opened)
    unfolding view
    new_account = first_login ∙ rw few refl
      where
        few : leb max_traders s.count ≡ false
        few = ground arith

    view-joined : view after ≡ opened
    unfolding view set_account
    view-joined = λ i. record { accounts = fun_ext same i; members = suc s.count }
      where
        same :
            (n : List ℕ)
            → account_at after.heap (find_trader n after) ≡ (
                if same_name n name
                then some (record { balance = 0; inventory = 0; session = some fd })
                else account_at s.heap (find_trader n s))
        same n = account_joined n ∙ rw connected refl

    room-Meets :
        taken after.all_traders ≡ suc (taken s.all_traders) → Meets junk me (login fd name) s
    unfolding perform
    room-Meets more = (
      after,
      rw (login_new_lem junk me s (held me 0) fd name j missing room slot ready)
          (ap (λ x. done x.0 after) (sym new_account)),
      joined-IsSound more,
      view-joined ∙ ap (λ x. x.1) (sym new_account),
    )

  -- The first login of a name, with room for it or not.
  pub first_login-Meets : Meets junk me (login fd name) s
  first_login-Meets = elim (Bool-cases (leb max_traders s.count)) [
    | inl full ↦ full-Meets (ground arith)
    | inr few ↦
        let (j, slot, more) =
          first_available-free s.all_traders 0 s.next
            (omega (arith, sound.size, sound.counted, room few)) in
        room-Meets (room few) j (slot ∙ ap pos (omega arith)) more
  ]
    where
      room : leb max_traders s.count ≡ false → s.count < max_traders
      room few = ground arith
