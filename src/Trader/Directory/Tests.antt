-- ===== src/Trader/Directory/Tests.antt =====
-- src/trader.c: calls on a table with one trader, beside the directory.
use bourse_server.Base.{
  ℕ, ◌≡◌, ◌≢◌, refl, List, [], ◌∷◌, none, some, inl, pos, minus_one, ℤ, false, int_eq, int_eq_iff,
  done, arith,
}
use bourse_server.Trader.Store.{Traders, update, held}
use bourse_server.Trader.Session.{trader_login}
use bourse_server.Trader.Lookup.{same_name_iff}
use bourse_server.Base.{Bool, true}
use bourse_server.Trader.Login.{login_new_lem}
use bourse_server.Trader.Directory.Online.{login_lasts}
use bourse_server.Trader.Table.{find_named, first_available, trader_init}
use bourse_server.Protocol.Wire.{Wire}
use bourse_server.Protocol.Reliable.{IsWritable}
use bourse_server.Protocol.Tests.{open_rio, withdraw_header, five, size_4}
use bourse_server.Trader.Packets.{trader_broadcast_packet}
use bourse_server.Trader.Broadcast.{all_reached, listeners, Heard}
use bourse_server.Trader.Directory.Ticker.{trader_broadcast_packet_lem}
use bourse_server.Trader.Tests.{alice, with_alice, zeros}
use bourse_server.Trader.Directory.Spec.{
  Account, Operation, Reply, accepted, refused, login, logout, increase_balance, decrease_balance,
  apply, apply_all, no_accounts, set_account,
}
use bourse_server.Trader.Directory.Calls.{perform_all}
use bourse_server.Trader.Directory.View.{IsSound, view}
use bourse_server.Trader.Directory.Refines.{IsUsable}
use bourse_server.Trader.Directory.History.{AllAllowed, perform_all_lem, trader_init-IsSound}

zeros-IsUsable : IsUsable zeros
zeros-IsUsable = record { unlocked = refl; garbage = 0; counts = refl }

open-IsWritable : (fd : ℤ) → fd ≢ minus_one → IsWritable open_rio fd
open-IsWritable fd real [] w = record { result = refl; wire = refl }
open-IsWritable fd real (b ∷ bs) w = rw (offline fd real) (record { result = refl; wire = refl })
  where
    offline : (fd : ℤ) → fd ≢ minus_one → int_eq fd minus_one ≡ false
    offline fd real = ground (arith, int_eq_iff fd minus_one)

alice-IsSound : IsSound (with_alice alice)
unfolding update find_named
alice-IsSound = record {
  size = refl;
  entries = ((alice, refl, record { idle = refl; owned = omega arith }, λ i. refl), tt);
  counted = omega arith;
  unused = λ q h. ground arith;
}

abbrev bob : List ℕ
bob = 98 ∷ []

-- A deposit, a withdrawal that is too large, a logout, a login over another connection, and a first
-- login.
abbrev some_calls : List Operation
some_calls =
    increase_balance alice.name 5
    ∷ decrease_balance alice.name 200
    ∷ logout alice.name
    ∷ login (pos 9) alice.name
    ∷ login (pos 5) bob
    ∷ []

real : (fd : ℤ) → int_eq fd minus_one ≡ false → fd ≢ minus_one
real fd h = ground (arith, int_eq_iff fd minus_one)

-- The account of Alice behind the first two calls.
abbrev signed_in : Account
signed_in = record { balance = 105; inventory = 10; session = some (pos 4) }

some_calls-AllAllowed : AllAllowed some_calls (view (with_alice alice))
unfolding view apply set_account find_named update
some_calls-AllAllowed =
    (tt, (tt, ((signed_in, pos 4, refl, refl), (real (pos 9) refl, (real (pos 5) refl, tt)))))

perform_all_example :
    (s : Traders) × (perform_all zeros 1 some_calls (with_alice alice)
      ≡ done (apply_all some_calls (view (with_alice alice))).0 s)
    × IsSound s
    × (view s ≡ (apply_all some_calls (view (with_alice alice))).1)
perform_all_example =
    perform_all_lem zeros 1 zeros-IsUsable some_calls (with_alice alice) alice-IsSound
      some_calls-AllAllowed

-- The answers are yes, no, yes, yes and yes.
abbrev answers : List Reply
answers = accepted ∷ refused ∷ accepted ∷ accepted ∷ accepted ∷ []

some_calls-answers : (apply_all some_calls (view (with_alice alice))).0 ≡ answers
unfolding apply_all apply view set_account find_named update
some_calls-answers = refl

-- The memory of the process before the call.
abbrev fresh_memory : Traders
fresh_memory = record (with_alice alice) { heap = λ p. none; all_traders = []; count = 0; next = 1 }

trader_init-IsSound_example :
    (s : Traders) × (trader_init fresh_memory ≡ done (pos 0) s) × IsSound s × (view s ≡ no_accounts)
trader_init-IsSound_example = trader_init-IsSound fresh_memory refl (λ q h. refl)

trader_broadcast_packet_example :
    (w : Wire) × (trader_broadcast_packet open_rio 1 withdraw_header (some five) (with_alice alice)
      ≡ done (pos 0) (record (with_alice alice) {
        heap = all_reached 1 (with_alice alice).all_traders (with_alice alice).heap;
        wire = w;
      }))
    × Heard open_rio withdraw_header five (with_alice alice).all_traders (with_alice alice) w
trader_broadcast_packet_example =
    trader_broadcast_packet_lem open_rio 1 withdraw_header (some five) five (with_alice alice)
      alice-IsSound open-IsWritable size_4 (inl refl)

alice_listens : listeners (with_alice alice).heap (with_alice alice).all_traders (pos 4) ≡ 1
unfolding update
alice_listens = refl

-- Bob logs in; then he has a deposit and Alice logs out.
abbrev while_in : List Operation
while_in = increase_balance bob 5 ∷ logout alice.name ∷ []

bob_in : (s : Traders) × (trader_login zeros 1 (pos 5) bob (with_alice alice) ≡ done (some 8) s)
unfolding find_named first_available update
bob_in = (
  _,
  login_new_lem zeros 1 (with_alice alice) (held 1 0) (pos 5) bob 1 refl (omega arith) refl refl,
)

other_name : bob ≢ alice.name
other_name e = not_same ((same_name_iff bob alice.name).1 e)
  where
    not_same : ◌≡◌ {A = Bool} false true → ⊥
    not_same h = cc

while_in-AllAllowed : AllAllowed while_in (view bob_in.0)
unfolding view apply set_account find_named update bob_in
while_in-AllAllowed = (
  tt,
  ((record { balance = 100; inventory = 10; session = some (pos 4) }, pos 4, refl, refl), tt),
)

login_lasts_example :
    (rs : List Reply) × (s₂ : Traders) × (s₃ : Traders) × (perform_all zeros 1 while_in bob_in.0
      ≡ done rs s₂)
    × (trader_login zeros 1 (pos 6) bob s₂ ≡ done none s₃)
    × (view s₃ ≡ view s₂)
login_lasts_example =
    login_lasts zeros 1 (pos 5) (pos 6) bob 8 while_in (with_alice alice) bob_in.0 zeros-IsUsable
      alice-IsSound (real (pos 5) refl) (real (pos 6) refl) bob_in.1 (tt, (other_name, tt))
      while_in-AllAllowed
