-- ===== src/Main/Shutdown.antt =====
-- src/main.c: wrong arguments, and the shutdown.
use bourse_server.Base.{
  ℕ, false, ◌≡◌, ◌≢◌, ◌∙◌, ◌>>◌, refl, ap, some, none, List, [], ◌∷◌, done, blocked, fault,
  Bool-cases, ◌==◌, if◌then◌else◌, inl, inr, take, ℤ, minus_one, int_eq, int_eq_iff, subst, arith,
}
use bourse_server.Registry.{ClientRegistry, creg_init}
use bourse_server.Registry.Invariant.{Inv, clients, creg_init-Inv}
use bourse_server.Registry.Contents.{registered}
use bourse_server.Registry.Waiting.{creg_wait_for_empty_lem, creg_shutdown_all-done}
use bourse_server.Protocol.Wire.{Wire}
use bourse_server.Trader.{Traders, same_name, trader_init, max_traders, find_trader, nowhere}
use bourse_server.Trader.Lookup.{same_name_iff}
use bourse_server.Trader.Finish.{AllNull, trader_fini-null, search-empty}
use bourse_server.Main.Defs.{
  Process, Environment, Connfdp, dash_p, terminate, shut_all, shut_down, main, sigup_handler,
  await_client, client_served,
}

module _ {X : Type 0} (env : Environment X) where
  shut_all-ended :
      (fds : List ℤ) (fd : ℤ) (w : Wire)
      → fd ≢ minus_one
      → w.incoming fd ≡ []
      → (shut_all env fds w).incoming fd ≡ []
  shut_all-ended [] fd w real ended = ended
  shut_all-ended (x ∷ fds) fd w real ended = elim (Bool-cases (int_eq fd x)) [
    | inl same ↦
        let here : fd ≡ x = (int_eq_iff fd x).0 same in
        shut_all-ended fds fd (env.shutdown x w) real
          (subst (λ y. (env.shutdown y w).incoming fd ≡ []) here (env.shutdown-ended fd w real))
    | inr other ↦
        shut_all-ended fds fd (env.shutdown x w) real
          (env.shutdown-others x fd w (ground (arith, int_eq_iff fd x)) ∙ ended)
  ]

  -- There is nothing left to read on any of the connections.
  abbrev pub AllEnded : List ℤ → Wire → Type 0
  AllEnded [] w = Unit {0}
  AllEnded (fd ∷ fds) w = (w.incoming fd ≡ []) × AllEnded fds w

  pub shut_all-AllEnded : (fds : List ℤ) (w : Wire) → AllEnded (registered fds) (shut_all env fds w)
  shut_all-AllEnded [] w = tt
  shut_all-AllEnded (fd ∷ fds) w = elim (Bool-cases (int_eq fd minus_one)) [
    | inl free ↦ rw free (shut_all-AllEnded fds (env.shutdown fd w))
    | inr used ↦
        let real : fd ≢ minus_one = ground (arith, int_eq_iff fd minus_one) in
        rw used (
          shut_all-ended fds fd (env.shutdown fd w) real (env.shutdown-ended fd w real),
          shut_all-AllEnded fds (env.shutdown fd w),
        )
  ]

  shut_all-outgoing : (fds : List ℤ) (w : Wire) → (shut_all env fds w).outgoing ≡ w.outgoing
  shut_all-outgoing [] w = refl
  shut_all-outgoing (fd ∷ fds) w =
      shut_all-outgoing fds (env.shutdown fd w) ∙ env.shutdown-outgoing fd w

  -- The process behind the shutdown of the connections in a registry.
  abbrev pub behind_shutdown : ClientRegistry → Process X → Process X
  behind_shutdown cr s = shut_down env cr.fds s

module _ {X : Type 0} (env : Environment X) (me : ℕ) where
  -- A shutdown before the registry has been made reaches through a NULL pointer.
  terminate-null :
      (s : Process X) (status : ℕ) → s.client_registry ≡ none → terminate env me status s ≡ fault
  unfolding terminate
  terminate-null s status h = rw h refl

  -- At the start of the process, with the registry NULL, any arguments but `-p` and one more make
  -- the program reach through the NULL pointer, in place of an exit with status 1.
  pub main-arguments :
      (argv : List (List ℕ)) (s : Process X)
      → s.client_registry ≡ none
      → ((program port : List ℕ) → argv ≢ program ∷ dash_p ∷ port ∷ [])
      → main env me argv s ≡ fault
  unfolding main
  main-arguments [] s h wrong = rw (terminate-null s 1 h) refl
  main-arguments (a ∷ []) s h wrong = rw (terminate-null s 1 h) refl
  main-arguments (a ∷ b ∷ []) s h wrong = rw (terminate-null s 1 h) refl
  main-arguments (a ∷ b ∷ c ∷ []) s h wrong = elim (Bool-cases (same_name b dash_p)) [
    | inl same ↦ absurd (wrong a c (ap (λ f. a ∷ f ∷ c ∷ []) ((same_name_iff b dash_p).0 same)))
    | inr other ↦ rw (other, terminate-null s 1 h) refl
  ]
  main-arguments (a ∷ b ∷ c ∷ d ∷ rest) s h wrong = rw (terminate-null s 1 h) refl

  -- With `-p` and a port the program listens on that port, with a new registry that is in order and
  -- empty, the exchange made, and a table in which no name is found.
  pub main-start :
      (program port : List ℕ) (s : Process X)
      → (s' : Process X) × (cr : ClientRegistry) × (main env me (program ∷ dash_p ∷ port ∷ []) s
          ≡ done (some port) s')
        × (s'.client_registry ≡ some cr)
        × Inv cr
        × (registered cr.fds ≡ [])
        × (s'.exchange ≡ some env.exchange_init)
        × ((name : List ℕ) → find_trader name s'.traders ≡ nowhere)
  unfolding main trader_init
  main-start program port s = (
    _,
    creg_init env.sems,
    refl,
    refl,
    (creg_init-Inv env.sems).0,
    (creg_init-Inv env.sems).1,
    refl,
    search-empty s.traders.heap max_traders 0,
  )

  pub terminate-waits :
      (s : Process X) (cr : ClientRegistry) (status : ℕ)
      → s.client_registry ≡ some cr
      → Inv cr
      → (clients cr == 0) ≡ false
      → terminate env me status s ≡ blocked (behind_shutdown env cr s)
  unfolding terminate
  terminate-waits s cr status e inv somebody =
      rw
        (
          e,
          creg_shutdown_all-done env.sems cr inv,
          creg_wait_for_empty_lem env.sems cr inv,
          somebody,
        )
        refl

  pub terminate_lem :
      (s : Process X) (cr : ClientRegistry) (status : ℕ) (t : Traders)
      → s.client_registry ≡ some cr
      → Inv cr
      → env.exchange_fini s.exchange (behind_shutdown env cr s).traders ≡ done tt t
      → AllNull (take t.count t.all_traders)
      → (s₁ : Process X) × (terminate env me status s ≡ (
          if clients cr == 0
          then done tt (record s { client_registry = none; traders = t; exited = some status })
          else blocked s₁))
        × AllEnded env (registered cr.fds) s₁.traders.wire
        × (s₁ ≡ record s { traders = record s.traders { wire = s₁.traders.wire } })
        × (s₁.traders.wire.outgoing ≡ s.traders.wire.outgoing)
  unfolding terminate
  terminate_lem s cr status t e inv finished walked = (
    behind_shutdown env cr s,
    elim (Bool-cases (clients cr == 0)) [
      | inl nobody ↦
          rw
            (
              e,
              creg_shutdown_all-done env.sems cr inv,
              creg_wait_for_empty_lem env.sems cr inv,
              nobody,
              finished,
              trader_fini-null me t walked,
            )
            refl
      | inr somebody ↦ rw somebody (terminate-waits s cr status e inv somebody)
    ],
    shut_all-AllEnded env cr.fds s.traders.wire,
    refl,
    shut_all-outgoing env cr.fds s.traders.wire,
  )

  -- A SIGHUP in a process whose registry is in order and empty, whose exchange can be finished, and
  -- with no trader in the part of the table that is walked after it. While `main` waits for a
  -- client, it ends the process with status 0. After a thread has freed the block at `connfdp`,
  -- and before `main` has made the next, it frees the block once more: undefined behaviour.
  pub sigup_handler_lem :
      (s : Process X) (cr : ClientRegistry) (t : Traders)
      → s.client_registry ≡ some cr
      → Inv cr
      → clients cr ≡ 0
      → env.exchange_fini s.exchange (behind_shutdown env cr s).traders ≡ done tt t
      → AllNull (take t.count t.all_traders)
      → ((await_client env me >> sigup_handler env me) s
          ≡ done tt (record s {
            client_registry = none;
            traders = t;
            connfdp = Connfdp.freed;
            exited = some 0;
          }))
        × ((await_client env me >> (client_served env me >> sigup_handler env me)) s ≡ fault)
  unfolding await_client client_served sigup_handler
  sigup_handler_lem s cr t e inv nobody finished walked = (
    (terminate_lem (record s { connfdp = Connfdp.freed }) cr 0 t e inv finished walked).1
        ∙ rw nobody refl,
    refl,
  )
