-- ===== src/Main/Tests.antt =====
-- src/main.c: a process that has just started, and one that has served its last client.
use bourse_server.Trader.Tests.{alice, with_alice}
use bourse_server.Main.Hangup.{HangsUp, Accepts-HangsUp}
use bourse_server.Base.{◌+◌, move, ◌<◌, ◌≢◌, ℤ, pos, minus_one, int_eq, int_eq_iff, int_eq_self}
use bourse_server.Main.Accept.{making}
use bourse_server.Main.Accept.{
  Acceptor, accept_client, creating, next_call, Accepts, begun, main_goes_on, thread_reads,
  thread_frees, read_argument, free_argument,
}
use bourse_server.Main.Served.{Served, Accepts-Served}
use bourse_server.Base.{
  ℕ, ◌≡◌, refl, ap, some, none, List, [], ◌∷◌, done, fault, arith, length, replicate, if◌then◌else◌,
}
use bourse_server.Registry.Tests.{posix_sems, one_client}
use bourse_server.Protocol.Wire.{Wire, with_incoming}
use bourse_server.Trader.{Traders}
use bourse_server.Main.Defs.{Process, Environment, Connfdp, main}
use bourse_server.Main.Shutdown.{main-arguments}

-- shutdown(2) fails on the descriptor -1.
abbrev shutdown_read : ℤ → Wire → Wire
shutdown_read fd w = if int_eq fd minus_one then w else with_incoming fd [] w

shutdown_read-ended : (fd : ℤ) (w : Wire) → fd ≢ minus_one → (shutdown_read fd w).incoming fd ≡ []
shutdown_read-ended fd w real = ground (arith, int_eq_iff fd minus_one, int_eq_self fd)

shutdown_read-others :
    (fd other : ℤ) (w : Wire) → other ≢ fd → (shutdown_read fd w).incoming other ≡ w.incoming other
shutdown_read-others fd other w differ = ground (arith, int_eq_iff other fd)

shutdown_read-outgoing : (fd : ℤ) (w : Wire) → (shutdown_read fd w).outgoing ≡ w.outgoing
shutdown_read-outgoing fd w = ground arith

abbrev plain : Environment (Unit {0})
plain = record {
  sems = posix_sems;
  shutdown = shutdown_read;
  shutdown-ended = shutdown_read-ended;
  shutdown-others = shutdown_read-others;
  shutdown-outgoing = shutdown_read-outgoing;
  exchange_init = tt;
  exchange_fini = λ exchange t. done tt t;
}

abbrev no_traders : Traders
no_traders = record {
  heap = λ p. none;
  next = 1;
  all_traders = replicate 64 none;
  count = 0;
  wire = record { incoming = λ fd. []; outgoing = λ fd. [] };
}

abbrev fresh : Process (Unit {0})
fresh = record {
  client_registry = none;
  exchange = none;
  traders = no_traders;
  connfdp = Connfdp.null;
  exited = none;
}

-- The client on descriptor 5 has three bytes left to send.
abbrev busy : Process (Unit {0})
busy = record fresh {
  client_registry = some one_client;
  exchange = some tt;
  traders = record no_traders {
    wire = record { incoming = λ fd. 1 ∷ 2 ∷ 3 ∷ []; outgoing = λ fd. [] };
  };
}

abbrev bourse : List ℕ
bourse = 98 ∷ []

-- The port "80".
abbrev port_80 : List ℕ
port_80 = 56 ∷ 48 ∷ []

-- The program is called with no arguments.
main-arguments_example : main plain 1 (bourse ∷ []) fresh ≡ fault
main-arguments_example =
    main-arguments plain 1 (bourse ∷ []) fresh refl
      (λ program port e. absurd (omega (arith, ap length e)))

-- Alice is served by thread 2 over descriptor 5, and has the three bytes left to send.
abbrev alice_here : Process (Unit {0})
alice_here = record busy {
  traders = record (with_alice (record alice { fd = pos 5 })) { wire = busy.traders.wire };
}

-- Accept returns 4 and then 5. The first thread reads its descriptor before `main` makes the second
-- block, and frees its own while `main` waits for the second client.
abbrev accepted_fds : ℕ → ℤ
accepted_fds i = pos (4 + i)

abbrev zero_blocks : ℕ → ℤ
zero_blocks i = pos 0

second_round : (s : Acceptor) × Accepts zero_blocks accepted_fds creating s
unfolding accept_client read_argument free_argument move
second_round = (
  _,
  main_goes_on
      (thread_frees 0
        (main_goes_on
          (thread_reads 0 (main_goes_on (main_goes_on (main_goes_on begun refl) refl) refl) refl
            refl)
          refl)
        refl refl)
      refl,
)

Accepts-Served_example :
    ((s' : Acceptor) × (next_call
          (zero_blocks second_round.0.born)
          (accepted_fds second_round.0.born)
          creating
          second_round.0
        ≡ done tt s'))
    × ((i : ℕ) → i < second_round.0.born → Served accepted_fds second_round.0 i)
Accepts-Served_example = Accepts-Served zero_blocks accepted_fds second_round.1

-- The first thread has read its descriptor, and `main` has not come to the second round.
first_round : (s : Acceptor) × Accepts zero_blocks accepted_fds making s
unfolding accept_client read_argument move
first_round =
    (_, thread_reads 0 (main_goes_on (main_goes_on (main_goes_on begun refl) refl) refl) refl refl)

Accepts-HangsUp_example : HangsUp accepted_fds making first_round.0
Accepts-HangsUp_example = Accepts-HangsUp zero_blocks accepted_fds first_round.1
