-- ===== src/Trader/Incoming.antt =====
-- src/trader.c: no call takes anything from a connection.
use bourse_server.Base.{
  ℕ, refl, inl, inr, Option, some, none, List, ℤ, pos, minus_one, int_eq, M, Outcome, done, blocked,
  fault, IsKept, Keeps, bind-Keeps, if-Keeps, pure-Keeps, get-Keeps, modify-Keeps, fault-Keeps,
  blocked-Keeps, Option-cases, negsuc, modify, arith, leb, not,
}
use bourse_server.Protocol.{proto_send_packet}
use bourse_server.Protocol.Types.{PacketHeader, StatusInfo}
use bourse_server.Protocol.Wire.{Wire, Rio}
use bourse_server.Protocol.Incoming.{to_come, proto_send_packet-Keeps}
use bourse_server.Trader.Store.{
  free, lock_mutex, Trader, Traders, load, assign, free_trader, malloc, lock, unlock,
}
use bourse_server.Trader.Table.{
  Found, at, nowhere, dangling, trader_ref, trader_unref, remove_found, set_slot, max_traders,
  get_first_available_index,
}
use bourse_server.Trader.Session.{
  ref_found, trader_login, trader_logout, logout_found, login_old, login_new, reserve, publish,
}
use bourse_server.Trader.Account.{
  trader_increase_balance, trader_decrease_balance, trader_increase_inventory,
  trader_decrease_inventory,
}
use bourse_server.Trader.Packets.{
  on_wire, with_wire, trader_send_packet, trader_send_ack, trader_send_nack,
}

-- What the clients will still send.
abbrev pub incoming : Traders → ℤ → List ℕ
incoming s = s.wire.incoming

load-Keeps : (p : ℕ) → Keeps incoming (load p)
unfolding load
load-Keeps p = record { kept = λ s. ground arith }

assign-Keeps : (p : ℕ) (f : Trader → Trader) → Keeps incoming (assign p f)
unfolding assign
assign-Keeps p f = record { kept = λ s. ground arith }

free_trader-Keeps : (p : ℕ) → Keeps incoming (free_trader p)
unfolding free_trader
free_trader-Keeps p = record { kept = λ s. ground arith }

lock-Keeps : (me p : ℕ) → Keeps incoming (lock me p)
unfolding lock
lock-Keeps me p = bind-Keeps (load-Keeps p) λ t.
    elim (Option-cases (lock_mutex me t.trader_mutex)) [
      | inl busy ↦ rw busy blocked-Keeps
      | inr (m, ready) ↦ rw ready (assign-Keeps p _)
    ]

unlock-Keeps : (me p : ℕ) → Keeps incoming (unlock me p)
unfolding unlock
unlock-Keeps me p = assign-Keeps p _

malloc-Keeps : (junk : Trader) → Keeps incoming (malloc junk)
malloc-Keeps junk = record { kept = λ s. refl }

module _ (me : ℕ) where
  trader_ref-Keeps : (p : ℕ) → Keeps incoming (trader_ref me p)
  unfolding trader_ref
  trader_ref-Keeps p =
      bind-Keeps (lock-Keeps me p)
        λ _. bind-Keeps (assign-Keeps p _) λ _. bind-Keeps (unlock-Keeps me p) λ _. pure-Keeps

  remove_found-Keeps : (p : ℕ) (f : Found) → Keeps incoming (remove_found me p f)
  remove_found-Keeps p (at i q) = bind-Keeps (free_trader-Keeps p) λ _. modify-Keeps λ s. refl
  remove_found-Keeps p nowhere = pure-Keeps
  remove_found-Keeps p dangling = fault-Keeps

  trader_unref-Keeps : (p : ℕ) → Keeps incoming (trader_unref me p)
  unfolding trader_unref
  trader_unref-Keeps p = bind-Keeps (lock-Keeps me p) λ _. bind-Keeps (assign-Keeps p _) λ _.
      bind-Keeps
        (bind-Keeps (load-Keeps p) λ t.
          if-Keeps (not (int_eq t.ref (pos 0))) pure-Keeps
            (bind-Keeps get-Keeps λ f. remove_found-Keeps p f))
        λ _. unlock-Keeps me p

  logout_found-Keeps : (p : ℕ) (f : Found) → Keeps incoming (logout_found me p f)
  logout_found-Keeps p (at i q) = bind-Keeps (trader_unref-Keeps p) λ _. assign-Keeps p _
  logout_found-Keeps p nowhere = pure-Keeps
  logout_found-Keeps p dangling = fault-Keeps

  pub trader_logout-Keeps : (p : ℕ) → Keeps incoming (trader_logout me p)
  unfolding trader_logout
  trader_logout-Keeps p = bind-Keeps (lock-Keeps me p) λ _.
      bind-Keeps (load-Keeps p)
        λ t. bind-Keeps get-Keeps λ f. bind-Keeps (logout_found-Keeps p f) λ _. unlock-Keeps me p

  ref_found-Keeps : (f : Found) → Keeps incoming (ref_found me f)
  ref_found-Keeps (at i p) = bind-Keeps (trader_ref-Keeps p) λ _. pure-Keeps
  ref_found-Keeps nowhere = pure-Keeps
  ref_found-Keeps dangling = fault-Keeps

  set_slot-Keeps : (i : ℤ) (p : Option ℕ) → Keeps incoming (modify (set_slot i p))
  set_slot-Keeps (pos i) p = modify-Keeps λ s. refl
  set_slot-Keeps (negsuc i) p = modify-Keeps λ s. refl

  reserve-Keeps :
      (junk : Trader) (fd : ℤ) (name : List ℕ) → Keeps incoming (reserve junk me fd name)
  unfolding reserve
  reserve-Keeps junk fd name = bind-Keeps get-Keeps λ count.
      if-Keeps (leb max_traders count) pure-Keeps (
        bind-Keeps (modify-Keeps λ s. refl) λ _. bind-Keeps (malloc-Keeps junk) λ p.
          bind-Keeps (trader_ref-Keeps p) λ _. bind-Keeps (trader_ref-Keeps p) λ _.
            bind-Keeps
              (assign-Keeps p λ t. record t { fd = fd; balance = 0; inventory = 0; name = name })
              λ _. bind-Keeps (assign-Keeps p λ t. record t { trader_mutex = free }) λ _.
                bind-Keeps (get-Keeps {f = get_first_available_index})
                  λ ret. pure-Keeps {a = some (p, ret)})

  publish-Keeps : (r : Option (ℕ × ℤ)) → Keeps incoming (publish r)
  publish-Keeps none = pure-Keeps
  publish-Keeps (some (p, ret)) =
      if-Keeps (int_eq ret minus_one) (pure-Keeps {a = none})
        (bind-Keeps (set_slot-Keeps ret (some p)) λ _. pure-Keeps {a = some p})

  login_new-Keeps :
      (junk : Trader) (fd : ℤ) (name : List ℕ) → Keeps incoming (login_new junk me fd name)
  login_new-Keeps junk fd name = bind-Keeps (reserve-Keeps junk fd name) publish-Keeps

  login_old-Keeps : (junk : Trader) (fd : ℤ) (p : ℕ) → Keeps incoming (login_old junk me fd p)
  login_old-Keeps junk fd p = bind-Keeps (load-Keeps p) λ t.
      if-Keeps (not (int_eq t.fd minus_one)) pure-Keeps
        (bind-Keeps (assign-Keeps p _) λ _. pure-Keeps)

  login-Keeps :
      (junk : Trader) (fd : ℤ) (name : List ℕ) (old : Option ℕ)
      → Keeps incoming
          (elim old [ some p ↦ login_old junk me fd p | none ↦ login_new junk me fd name ])
  login-Keeps junk fd name (some p) = login_old-Keeps junk fd p
  login-Keeps junk fd name none = login_new-Keeps junk fd name

  pub trader_login-Keeps :
      (junk : Trader) (fd : ℤ) (name : List ℕ) → Keeps incoming (trader_login junk me fd name)
  unfolding trader_login
  trader_login-Keeps junk fd name =
      bind-Keeps (bind-Keeps get-Keeps λ f. ref_found-Keeps f) λ old. login-Keeps junk fd name old

  pub trader_increase_balance-Keeps :
      (p amount : ℕ) → Keeps incoming (trader_increase_balance me p amount)
  unfolding trader_increase_balance
  trader_increase_balance-Keeps p amount =
      bind-Keeps (lock-Keeps me p) λ _. bind-Keeps (assign-Keeps p _) λ _. unlock-Keeps me p

  pub trader_increase_inventory-Keeps :
      (p quantity : ℕ) → Keeps incoming (trader_increase_inventory me p quantity)
  unfolding trader_increase_inventory
  trader_increase_inventory-Keeps p quantity =
      bind-Keeps (lock-Keeps me p) λ _. bind-Keeps (assign-Keeps p _) λ _. unlock-Keeps me p

  pub trader_decrease_balance-Keeps :
      (p amount : ℕ) → Keeps incoming (trader_decrease_balance me p amount)
  unfolding trader_decrease_balance
  trader_decrease_balance-Keeps p amount = bind-Keeps (lock-Keeps me p) λ _.
      bind-Keeps (load-Keeps p) λ t.
        if-Keeps (leb amount t.balance)
          (bind-Keeps (bind-Keeps (assign-Keeps p _) λ _. unlock-Keeps me p) λ _. pure-Keeps)
          (bind-Keeps (unlock-Keeps me p) λ _. pure-Keeps)

  pub trader_decrease_inventory-Keeps :
      (p quantity : ℕ) → Keeps incoming (trader_decrease_inventory me p quantity)
  unfolding trader_decrease_inventory
  trader_decrease_inventory-Keeps p quantity = bind-Keeps (lock-Keeps me p) λ _.
      bind-Keeps (load-Keeps p) λ t.
        if-Keeps (leb quantity t.inventory)
          (bind-Keeps (bind-Keeps (assign-Keeps p _) λ _. unlock-Keeps me p) λ _. pure-Keeps)
          (bind-Keeps (unlock-Keeps me p) λ _. pure-Keeps)

on_wire-Keeps : {A : Type 0} (m : M Wire A) → Keeps to_come m → Keeps incoming (on_wire m)
on_wire-Keeps {A} m k = record { kept = λ s. go s (m s.wire) (k.kept s.wire) }
  where
    go :
        (s : Traders) (o : Outcome Wire A)
        → IsKept to_come (to_come s.wire) o
        → IsKept incoming (incoming s) (with_wire s o)
    go s (done a w) e = e
    go s (blocked w) e = tt
    go s fault e = tt

module _ (rio : Rio) (me : ℕ) where
  pub on_wire-send-Keeps :
      (fd : ℤ) (pkt : PacketHeader) (payload : Option (List ℕ))
      → Keeps incoming (on_wire (proto_send_packet rio fd pkt payload))
  on_wire-send-Keeps fd pkt payload = on_wire-Keeps _ (proto_send_packet-Keeps rio fd pkt payload)

  trader_send_packet-Keeps :
      (p : ℕ) (pkt : PacketHeader) (payload : Option (List ℕ))
      → Keeps incoming (trader_send_packet rio me p pkt payload)
  unfolding trader_send_packet
  trader_send_packet-Keeps p pkt payload = bind-Keeps (lock-Keeps me p) λ _.
      bind-Keeps (load-Keeps p) λ t. bind-Keeps (on_wire-send-Keeps t.fd pkt payload) λ (r, pkt').
        if-Keeps (int_eq r minus_one) pure-Keeps (bind-Keeps (unlock-Keeps me p) λ _. pure-Keeps)

  module _ (stack : PacketHeader) where
    pub trader_send_ack-Keeps :
        (p : ℕ) (info : Option StatusInfo) → Keeps incoming (trader_send_ack rio stack me p info)
    unfolding trader_send_ack
    trader_send_ack-Keeps p none = bind-Keeps (trader_send_packet-Keeps p _ none) λ _. pure-Keeps
    trader_send_ack-Keeps p (some info) =
        bind-Keeps (load-Keeps p) λ t. bind-Keeps (trader_send_packet-Keeps p _ _) λ _. pure-Keeps

    pub trader_send_nack-Keeps : (p : ℕ) → Keeps incoming (trader_send_nack rio stack me p)
    unfolding trader_send_nack
    trader_send_nack-Keeps p = bind-Keeps (trader_send_packet-Keeps p _ none) λ _. pure-Keeps
