-- ===== src/Trader/Threads/Tests.antt =====
-- src/trader.c: a thread deposits, and another one asks for more than there is.
use bourse_server.Base.{move, ℕ, ◌≡◌, refl, List, [], ◌∷◌, map, pos, minus_one, done, arith}
use bourse_server.Trader.Store.{held, put}
use bourse_server.Trader.Tests.{alice, with_alice, live}
use bourse_server.Trader.Threads.Steps.{
  increase, decrease, Counter, outside, testing, adding, writing, leaving, Shared, Effect, Run,
  stop, step, lock_increase, lock_decrease, short, read_adding, write, unlock,
}
use bourse_server.Trader.Threads.Order.{IsOrderly}
use bourse_server.Trader.Threads.Serial.{one_by_one, result_of, start_of, Finishes, Run-one_by_one}

-- The second thread has still to unlock the mutex.
abbrev deposited : ℕ → Counter
deposited =
    move (move (move (λ i. outside) 1 (adding 5)) 1 (writing (increase 5) 105)) 1 (leaving (pos 0))

abbrev last_state : Shared
last_state = record {
  balance = 105;
  trader_mutex = held 2 0;
  threads = move (move (move deposited 1 outside) 2 (testing 200)) 2 (leaving minus_one);
}

abbrev effects : List Effect
effects =
    record { thread = 1; change = increase 5; result = pos 0 }
    ∷ record { thread = 2; change = decrease 200; result = minus_one }
    ∷ []

two_threads : Run (start_of alice) effects last_state
unfolding move
two_threads = step 1 (lock_increase _ (held 1 0) 5 refl refl) (
    step 1 (read_adding _ 5 refl) (
      step 1 (write _ (increase 5) 105 refl) (
        step 1 (unlock _ (pos 0) refl) (
          step 2 (lock_decrease _ (held 2 0) 200 refl refl)
            (step 2 (short _ 200 refl (omega arith)) (stop _))))))

Run-one_by_one_example :
    (one_by_one 7 effects (with_alice alice)
      ≡ done (map result_of effects) (put 7 (record alice { balance = 105 }) (with_alice alice)))
    × IsOrderly last_state
    × Finishes last_state
Run-one_by_one_example =
    Run-one_by_one 7 (with_alice alice) alice effects last_state (live alice) refl (omega arith)
      two_threads
