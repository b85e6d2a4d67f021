-- ===== src/Trader/Tests.antt =====
-- src/trader.c: a table with one trader, who is logged in, logged out or about to come.
use bourse_server.Base.{set}
use bourse_server.Trader.Race.{LoggedIn, both_ask, both_enter, both_login}
use bourse_server.Base.{
  ℕ, ◌≡◌, refl, ◌≢◌, ◌⊎◌, inl, some, none, List, [], ◌∷◌, ℤ, pos, minus_one, int_eq, int_eq_iff,
  done, blocked, fault, ◌>>◌, arith, replicate, take, false,
}
use bourse_server.Protocol.Types.{StatusInfo, status_bytes, zero_header}
use bourse_server.Protocol.{stamp}
use bourse_server.Protocol.Send.{packet}
use bourse_server.Protocol.Tests.{open_rio, quiet, withdraw_header, five, size_4}
use bourse_server.Trader.Store.{free, held, Trader, Traders, update, put}
use bourse_server.Trader.Table.{
  find_named, find_trader, at, nowhere, first_available, trader_unref, trader_fini,
}
use bourse_server.Trader.Session.{trader_login, trader_logout}
use bourse_server.Trader.Packets.{trader_send_packet, trader_send_ack}
use bourse_server.Trader.RefCounts.{trader_unref_last}
use bourse_server.Trader.LoginLogout.{login-logout}
use bourse_server.Trader.Login.{login_again, login_once}
use bourse_server.Trader.Sending.{delivered, kept, trader_send_packet_lem, send_logged_out}
use bourse_server.Trader.Answers.{ack_header, account_info, trader_send_ack_lem}
use bourse_server.Trader.Finish.{trader_fini-fault}

-- Two references, the account 100 and 10, over the connection 4.
abbrev pub alice : Trader
alice = record {
  ref = pos 2;
  fd = pos 4;
  balance = 100;
  inventory = 10;
  trader_mutex = free;
  name = 97 ∷ [];
}

-- After a logout.
abbrev pub alice_out : Trader
alice_out = record alice { ref = pos 1; fd = minus_one }

abbrev pub with_alice : Trader → Traders
with_alice t = record {
  heap = update (λ p. none) 7 (some t);
  next = 8;
  all_traders = some 7 ∷ replicate 63 none;
  count = 1;
  wire = quiet;
}

-- A block from malloc(3) that holds zeros.
abbrev pub zeros : Trader
zeros = record {
  ref = pos 0;
  fd = pos 0;
  balance = 0;
  inventory = 0;
  trader_mutex = free;
  name = [];
}

abbrev funds : StatusInfo
funds = record { balance = 0; inventory = 0; bid = 3; ask = 4; last = 5; orderid = 0; quantity = 0 }

abbrev bob : List ℕ
bob = 98 ∷ []

pub live : (t : Trader) → (with_alice t).heap 7 ≡ some t
unfolding update
live t = refl

pub found : find_trader alice.name (with_alice alice) ≡ at 0 7
unfolding find_named update
found = refl

pub found_out : find_trader alice.name (with_alice alice_out) ≡ at 0 7
unfolding find_named update
found_out = refl

bob_missing : find_trader bob (with_alice alice) ≡ nowhere
unfolding find_named update
bob_missing = refl

second_entry : first_available (with_alice alice).all_traders 0 ≡ pos 1
unfolding first_available
second_entry = refl

block_8 : (with_alice alice).heap 8 ≡ none
unfolding update
block_8 = refl

int_ne : (a b : ℤ) → int_eq a b ≡ false → a ≢ b
int_ne a b h = ground (arith, int_eq_iff a b)

trader_unref_last_example : trader_unref 1 7 (with_alice alice_out) ≡ fault
trader_unref_last_example =
    trader_unref_last 1 7 (with_alice alice_out) alice_out (held 1 0) (live alice_out) refl refl
      found_out

login_again_example :
    trader_login zeros 1 (pos 9) alice.name (with_alice alice)
    ≡ done none (put 7 (record alice { ref = pos 3 }) (with_alice alice))
login_again_example =
    login_again zeros 1 7 0 (with_alice alice) alice (held 1 0) (pos 9) alice.name found
      (live alice) refl (int_ne (pos 4) minus_one refl)

login-logout_example :
    (trader_logout 1 7 >> trader_login zeros 2 (pos 9) alice.name) (with_alice alice)
    ≡ done (some 7) (put 7 (record alice { fd = pos 9 }) (with_alice alice))
login-logout_example =
    login-logout zeros 1 2 7 0 (with_alice alice) alice (pos 9) found (live alice) refl
      (int_ne (pos 2) (pos 1) refl)

login_once_example :
    (s' : Traders) × (trader_login zeros 1 (pos 9) bob (with_alice alice) ≡ done (some 8) s')
    × (s'.heap 8
        ≡ some (record {
          ref = pos 2;
          fd = pos 9;
          balance = 0;
          inventory = 0;
          trader_mutex = free;
          name = bob;
        }))
    × (find_trader bob s' ≡ at 1 8)
    × (trader_login zeros 2 (pos 5) bob s'
        ≡ done none (
            put 8
              (record {
                ref = pos 3;
                fd = pos 9;
                balance = 0;
                inventory = 0;
                trader_mutex = free;
                name = bob;
              })
              s'))
login_once_example =
    login_once zeros 1 2 (with_alice alice) (held 1 0) (pos 9) (pos 5) bob 1 bob_missing
      (omega arith) second_entry refl block_8 (int_ne (pos 9) minus_one refl)

trader_send_packet_example :
    (trader_send_packet open_rio 1 7 withdraw_header (some five) (with_alice alice)
      ≡ done
          (pos 0, stamp open_rio withdraw_header quiet)
          (delivered alice (packet open_rio withdraw_header quiet five) (with_alice alice)))
    ⊎ ((n : ℕ) × (trader_send_packet open_rio 1 7 withdraw_header (some five) (with_alice alice)
          ≡ done
              (minus_one, stamp open_rio withdraw_header quiet)
              (kept 1 7 alice
                (take n (packet open_rio withdraw_header quiet five))
                (with_alice alice))))
trader_send_packet_example =
    trader_send_packet_lem open_rio 1 7 (with_alice alice) alice withdraw_header (some five) five
      (live alice) refl size_4 (inl refl)

send_logged_out_example :
    (s' : Traders) × (trader_send_packet open_rio 1 7 withdraw_header
        (some five)
        (with_alice alice_out)
      ≡ done (minus_one, stamp open_rio withdraw_header quiet) s')
    × (trader_login zeros 2 (pos 9) alice.name s' ≡ blocked s')
send_logged_out_example =
    send_logged_out open_rio zeros 1 2 7 0 (with_alice alice_out) alice_out (pos 9) withdraw_header
      (some five) found_out (live alice_out) refl refl (λ e. absurd (omega arith))

trader_fini-fault_example : trader_fini 1 (with_alice alice) ≡ fault
trader_fini-fault_example =
    trader_fini-fault 1 (with_alice alice) [] [] 7 alice (held 1 0) refl tt (live alice) refl

trader_send_ack_example :
    (trader_send_ack open_rio zero_header 1 7 (some funds) (with_alice alice)
      ≡ done (pos 0) (
          delivered alice
            (packet open_rio
              (ack_header zero_header)
              quiet
              (status_bytes (account_info funds alice)))
            (with_alice alice)))
    ⊎ ((n : ℕ) × (trader_send_ack open_rio zero_header 1 7 (some funds) (with_alice alice)
          ≡ done (pos 0) (
              kept 1 7 alice
                (take n (
                  packet open_rio
                    (ack_header zero_header)
                    quiet
                    (status_bytes (account_info funds alice))))
                (with_alice alice))))
trader_send_ack_example =
    trader_send_ack_lem open_rio zero_header 1 7 (with_alice alice) alice (live alice) refl funds

block_9 : (with_alice alice).heap 9 ≡ none
unfolding update
block_9 = refl

abbrev carol : List ℕ
carol = 99 ∷ []

carol_missing : find_trader carol (with_alice alice) ≡ nowhere
unfolding find_named update
carol_missing = refl

-- Bob and Carol log in at the same time.
both_login_example :
    (both_ask zeros zeros 1 2 (pos 9) (pos 5) bob carol (with_alice alice)
      ≡ done (none, none) (with_alice alice))
    × (s' : Traders) × (both_enter zeros zeros 1 2 (pos 9) (pos 5) bob carol (with_alice alice)
        ≡ done (some 8, some 9) s')
    × (s'.count ≡ 3)
    × (s'.all_traders ≡ set (with_alice alice).all_traders 1 (some 9))
    × LoggedIn 8 (pos 9) bob s'
    × LoggedIn 9 (pos 5) carol s'
    × (find_trader carol s' ≡ at 1 9)
    × (find_trader bob s' ≡ nowhere)
both_login_example =
    both_login zeros zeros 1 2 (pos 9) (pos 5) bob carol (with_alice alice) (held 1 0) (held 2 0) 1
      bob_missing carol_missing (omega arith) second_entry refl refl block_8 block_9
