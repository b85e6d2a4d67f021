-- ===== src/Main/Served.antt =====
-- src/main.c and src/server.c: the threads that the loop starts, and the descriptors that they read.
use bourse_server.Base.{
  ℕ, ◌<◌, ◌≡◌, refl, sym, ◌∙◌, ap, ◌⊎◌, inl, inr, Option, none, some, ℤ, done, arith, move,
  move_self, move_ne, Bool-cases, ◌==◌, ==_iff, ltb, subst, done_state,
}
use bourse_server.Main.Accept.{
  Thread, unborn, created, has_read, serving, Acceptor, read_argument, free_argument, begin_service,
  Place, making, accepting, creating, next_call, place_behind, listening, Accepts, begun,
  main_goes_on, thread_reads, thread_frees,
}
use bourse_server.Main.Handover.{Handed, Handed-kept, Underway, IsTidy, main-Returns}

created_inj : {a b : Option ℕ} → created a ≡ created b → a ≡ b
created_inj e = cc

read_inj : {a b : Option ℕ} {x y : ℤ} → has_read a x ≡ has_read b y → (a ≡ b) × (x ≡ y)
read_inj e = (cc, cc)

not_unborn : {a : Option ℕ} → unborn ≡ created a → ⊥
not_unborn e = cc

unborn_not_reading : {a : Option ℕ} {fd : ℤ} → unborn ≡ has_read a fd → ⊥
unborn_not_reading e = cc

not_serving : {fd : ℤ} {a : Option ℕ} → serving fd ≡ created a → ⊥
not_serving e = cc

not_reading : {fd : ℤ} {a b : Option ℕ} → has_read b fd ≡ created a → ⊥
not_reading e = cc

created_not_reading : {fd : ℤ} {a b : Option ℕ} → created b ≡ has_read a fd → ⊥
created_not_reading e = cc

serving_not_reading : {fd x : ℤ} {a : Option ℕ} → serving x ≡ has_read a fd → ⊥
serving_not_reading e = cc

-- Thread `i` serves the descriptor of round `i`; or it has read it and can free its block; or it can
-- begin, which does both; and then it serves that descriptor.
abbrev pub Served : (ℕ → ℤ) → Acceptor → ℕ → Type 0
Served fds s i =
    (s.threads i ≡ serving (fds i))
    ⊎ (((s.threads i ≡ has_read (some i) (fds i))
          × (s' : Acceptor) × (free_argument i (some i) (fds i) s ≡ done tt s')
          × (s'.threads i ≡ serving (fds i)))
        ⊎ ((s.threads i ≡ created (some i))
            × (s' : Acceptor) × (begin_service i (some i) s ≡ done tt s')
            × (s'.threads i ≡ serving (fds i))))

module _ (junk fds : ℕ → ℤ) where
  Underway-threads :
      (place : Place) (s : Acceptor) (threads : ℕ → Thread)
      → Underway fds place s
      → Underway fds place (record s { threads = threads })
  Underway-threads making s threads under = under
  Underway-threads accepting s threads under = under
  Underway-threads creating s threads under = under

  Underway-kept :
      (place : Place) (s : Acceptor) (i : ℕ) (t : Thread)
      → i < s.born
      → Underway fds place s
      → Underway fds place
          (record s { blocks = move s.blocks i none; threads = move s.threads i t })
  Underway-kept making s i t lt under = under
  Underway-kept accepting s i t lt (one_more, pointer, old, block) =
      (one_more, pointer, old, move_ne i s.blocks none s.born (ground arith) ∙ block)
  Underway-kept creating s i t lt (one_more, pointer, block) =
      (one_more, pointer, move_ne i s.blocks none s.born (ground arith) ∙ block)

  -- A thread that has moved to its next place.
  moved : (s : Acceptor) (i j : ℕ) (t : ℕ → Thread) → j ≡ i → move s.threads i (t i) j ≡ t j
  moved s i j t same =
      ap (move s.threads i (t i)) same ∙ move_self i s.threads (t i) ∙ ap t (sym same)

  abbrev reading : ℕ → Thread
  reading i = has_read (some i) (fds i)

  abbrev read_at : ℕ → Acceptor → Acceptor
  read_at i s = record s { threads = move s.threads i (reading i) }

  abbrev begun_at : ℕ → Acceptor → Acceptor
  begun_at i s = record s {
    blocks = move s.blocks i none;
    threads = move s.threads i (serving (fds i));
  }

  read_at-IsTidy :
      (place : Place) (s : Acceptor) (i : ℕ)
      → IsTidy fds place s
      → i < s.born
      → s.blocks i ≡ some (fds i)
      → IsTidy fds place (read_at i s)
  read_at-IsTidy place s i tidy lt block = record {
    underway = Underway-threads place s _ tidy.underway;
    handed = λ j lt'. elim (Bool-cases (j == i)) [
      | inl self ↦
          let same : j ≡ i = (==_iff j i).0 self in
          inr (
            inl (
              moved s i j reading same,
              ap s.blocks same ∙ block ∙ ap (λ k. some (fds k)) (sym same),
            ))
      | inr other ↦
          Handed-kept fds s (read_at i s) j (move_ne i s.threads (reading i) j other) refl
            (tidy.handed j lt')
    ];
    later = λ j le. move_ne i s.threads _ j (ground (arith, lt, le)) ∙ tidy.later j le;
  }

  begun_at-IsTidy :
      (place : Place) (s : Acceptor) (i : ℕ)
      → IsTidy fds place s
      → i < s.born
      → IsTidy fds place (begun_at i s)
  begun_at-IsTidy place s i tidy lt = record {
    underway = Underway-kept place s i (serving (fds i)) lt tidy.underway;
    handed = λ j lt'. elim (Bool-cases (j == i)) [
      | inl self ↦
          let same : j ≡ i = (==_iff j i).0 self in
          inr (
            inr (
              moved s i j (λ k. serving (fds k)) same,
              ap (move s.blocks i none) same ∙ move_self i s.blocks none,
            ))
      | inr other ↦
          Handed-kept fds s (begun_at i s) j (move_ne i s.threads (serving (fds i)) j other)
            (move_ne i s.blocks none j other) (tidy.handed j lt')
    ];
    later = λ j le. move_ne i s.threads _ j (ground (arith, lt, le)) ∙ tidy.later j le;
  }

  read_argument-own :
      (s : Acceptor) (i : ℕ)
      → s.blocks i ≡ some (fds i)
      → read_argument i (some i) s ≡ done (fds i) (read_at i s)
  unfolding read_argument
  read_argument-own s i block = ground (arith, block)

  free_argument-own :
      (s : Acceptor) (i : ℕ)
      → s.blocks i ≡ some (fds i)
      → free_argument i (some i) (fds i) s ≡ done tt (begun_at i s)
  unfolding free_argument
  free_argument-own s i block = ground (arith, block)

  -- A thread that has been created is one of those of the rounds so far.
  in_time :
      (place : Place) (s : Acceptor) (i : ℕ)
      → IsTidy fds place s
      → (s.threads i ≡ unborn → ⊥)
      → i < s.born
  in_time place s i tidy born = elim (Bool-cases (ltb i s.born)) [
    | inr late ↦ absurd (born (tidy.later i (ground (arith, late))))
    | inl lt ↦ ground (arith, lt)
  ]

  -- A thread that has been created reads the descriptor of its round.
  read-Returns :
      (place : Place) (s : Acceptor) (i : ℕ) (arg : Option ℕ)
      → IsTidy fds place s
      → s.threads i ≡ created arg
      → (s' : Acceptor) × (read_argument i arg s ≡ done (fds i) s') × IsTidy fds place s'
  read-Returns place s i arg tidy ready =
      let lt = in_time place s i tidy (λ late. not_unborn (sym late ∙ ready)) in
      elim (tidy.handed i lt) [
        | inl (own, block) ↦ (
          read_at i s,
          ap (λ a. read_argument i a s) (created_inj (sym ready ∙ own))
              ∙ read_argument-own s i block,
          read_at-IsTidy place s i tidy lt block,
        )
        | inr (inl (reads, block)) ↦ absurd (not_reading (sym reads ∙ ready))
        | inr (inr (at_work, freed)) ↦ absurd (not_serving (sym at_work ∙ ready))
      ]

  -- A thread that has read its descriptor frees its block.
  free-Returns :
      (place : Place) (s : Acceptor) (i : ℕ) (arg : Option ℕ) (connfd : ℤ)
      → IsTidy fds place s
      → s.threads i ≡ has_read arg connfd
      → (s' : Acceptor) × (free_argument i arg connfd s ≡ done tt s') × IsTidy fds place s'
  free-Returns place s i arg connfd tidy ready =
      let lt = in_time place s i tidy (λ late. unborn_not_reading (sym late ∙ ready)) in
      elim (tidy.handed i lt) [
        | inl (own, block) ↦ absurd (created_not_reading (sym own ∙ ready))
        | inr (inl (reads, block)) ↦
            let (pointer, same) = read_inj (sym ready ∙ reads) in
            (
              begun_at i s,
              (λ k. free_argument i (pointer k) (same k) s) ∙ free_argument-own s i block,
              begun_at-IsTidy place s i tidy lt,
            )
        | inr (inr (at_work, freed)) ↦ absurd (serving_not_reading (sym at_work ∙ ready))
      ]

  listening-IsTidy : IsTidy fds making listening
  listening-IsTidy = record {
    underway = (refl, inl (refl, refl));
    handed = λ i lt. absurd (omega (arith, lt));
    later = λ i le. refl;
  }

  pub Accepts-IsTidy :
      {place : Place} {s : Acceptor} → Accepts junk fds place s → IsTidy fds place s
  Accepts-IsTidy begun = listening-IsTidy
  Accepts-IsTidy (main_goes_on {place} {s} run e) =
      let (s', returns, tidy) = main-Returns junk fds place s (Accepts-IsTidy run) in
      subst (IsTidy fds (place_behind place)) (done_state (sym returns ∙ e)) tidy
  Accepts-IsTidy (thread_reads {place} {s} {arg = arg} i run ready e) =
      let (s', returns, tidy) = read-Returns place s i arg (Accepts-IsTidy run) ready in
      subst (IsTidy fds place) (done_state (sym returns ∙ e)) tidy
  Accepts-IsTidy (thread_frees {place} {s} {arg = arg} {connfd = connfd} i run ready e) =
      let (s', returns, tidy) = free-Returns place s i arg connfd (Accepts-IsTidy run) ready in
      subst (IsTidy fds place) (done_state (sym returns ∙ e)) tidy

  pub Handed-Served : (s : Acceptor) (i : ℕ) → Handed fds s i → Served fds s i
  unfolding begin_service
  Handed-Served s i (inr (inr (at_work, freed))) = inl at_work
  Handed-Served s i (inr (inl (reads, block))) =
      inr (inl (reads, begun_at i s, free_argument-own s i block, move_self i s.threads _))
  Handed-Served s i (inl (own, block)) = inr (
      inr (
        own,
        begun_at i (read_at i s),
        rw (read_argument-own s i block) (free_argument-own (read_at i s) i block),
        move_self i _ _,
      ))

  -- However the rounds of the loop that accepts connections and the steps of the threads that it
  -- starts are interleaved, the next call of `main` returns; and each thread that has been created
  -- serves the descriptor that Accept returned in its round, or has read that descriptor and can
  -- free its block without a fault, or has still to begin, and then it does both without a fault.
  pub Accepts-Served :
      {place : Place} {s : Acceptor}
      → Accepts junk fds place s
      → ((s' : Acceptor) × (next_call (junk s.born) (fds s.born) place s ≡ done tt s'))
        × ((i : ℕ) → i < s.born → Served fds s i)
  Accepts-Served {place} {s} run =
      let tidy = Accepts-IsTidy run in
      let (s', returns, kept) = main-Returns junk fds place s tidy in
      ((s', returns), λ i lt. Handed-Served s i (tidy.handed i lt))
