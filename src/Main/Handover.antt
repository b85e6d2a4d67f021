-- ===== src/Main/Handover.antt =====
-- src/main.c: a round of the loop that accepts connections, and who has its descriptor.
use bourse_server.Base.{
  ℕ, suc, ◌≤◌, ◌<◌, ◌≡◌, refl, sym, ◌∙◌, ap, ◌⊎◌, inl, inr, false, none, some, ℤ, done, arith, move,
  move_self, move_ne, Bool-cases, ◌==◌, ==_iff,
}
use bourse_server.Main.Accept.{
  unborn, created, has_read, serving, Acceptor, accept_client, Place, making, accepting, creating,
  next_call, place_behind,
}

-- Thread `i` will read the descriptor of round `i` from a block of its own, or has read it, or has
-- freed the block too.
abbrev pub Handed : (ℕ → ℤ) → Acceptor → ℕ → Type 0
Handed fds s i =
    ((s.threads i ≡ created (some i)) × (s.blocks i ≡ some (fds i)))
    ⊎ (((s.threads i ≡ has_read (some i) (fds i)) × (s.blocks i ≡ some (fds i)))
        ⊎ ((s.threads i ≡ serving (fds i)) × (s.blocks i ≡ none)))

-- The block of the round that `main` is in.
abbrev pub Underway : (ℕ → ℤ) → Place → Acceptor → Type 0
Underway fds making s =
    (s.next ≡ s.born)
    × (((s.born ≡ 0) × (s.connfdp ≡ none)) ⊎ ((k : ℕ) × (s.born ≡ suc k) × (s.connfdp ≡ some k)))
Underway fds accepting s =
    (s.next ≡ suc s.born) × (s.connfdp ≡ some s.born) × (old : ℤ) × (s.blocks s.born ≡ some old)
Underway fds creating s =
    (s.next ≡ suc s.born) × (s.connfdp ≡ some s.born) × (s.blocks s.born ≡ some (fds s.born))

pub record IsTidy (fds : ℕ → ℤ) (place : Place) (s : Acceptor) : Type 0 where
  pub underway : Underway fds place s
  pub handed : (i : ℕ) → i < s.born → Handed fds s i
  pub later : (i : ℕ) → s.born ≤ i → s.threads i ≡ unborn

-- What does not touch a thread and its block.
pub Handed-kept :
    (fds : ℕ → ℤ) (s s' : Acceptor) (i : ℕ)
    → s'.threads i ≡ s.threads i
    → s'.blocks i ≡ s.blocks i
    → Handed fds s i
    → Handed fds s' i
Handed-kept fds s s' i e f (inl (ready, block)) = inl (e ∙ ready, f ∙ block)
Handed-kept fds s s' i e f (inr (inl (reads, block))) = inr (inl (e ∙ reads, f ∙ block))
Handed-kept fds s s' i e f (inr (inr (at_work, freed))) = inr (inr (e ∙ at_work, f ∙ freed))

other_than : (i j : ℕ) → i < j → (i == j) ≡ false
other_than i j h = ground arith

-- The states behind the three calls of a round.
abbrev made : ℤ → Acceptor → Acceptor
made junk s = record s {
  blocks = move s.blocks s.next (some junk);
  next = suc s.next;
  connfdp = some s.next;
}

abbrev stored : ℤ → Acceptor → Acceptor
stored fd s = record s { blocks = move s.blocks s.born (some fd) }

abbrev added : Acceptor → Acceptor
added s = record s { threads = move s.threads s.born (created s.connfdp); born = suc s.born }

module _ (junk fds : ℕ → ℤ) where
  abbrev pub Returns : Place → Acceptor → Type 0
  Returns place s =
      (s' : Acceptor) × (next_call (junk s.born) (fds s.born) place s ≡ done tt s')
      × IsTidy fds (place_behind place) s'

  make-Returns : (s : Acceptor) → IsTidy fds making s → Returns making s
  make-Returns s tidy = (
    _,
    refl,
    record {
      underway = (
        ap suc tidy.underway.0,
        ap some tidy.underway.0,
        junk s.born,
        ap (λ p. move s.blocks p (some (junk s.born)) s.born) tidy.underway.0
            ∙ move_self s.born s.blocks _,
      );
      handed = λ i lt.
          Handed-kept fds s (made (junk s.born) s) i refl
            (move_ne s.next s.blocks (some (junk s.born)) i (ground (arith, tidy.underway.0)))
            (tidy.handed i lt);
      later = tidy.later;
    },
  )

  accept-Returns : (s : Acceptor) → IsTidy fds accepting s → Returns accepting s
  unfolding accept_client
  accept-Returns s tidy =
      let (one_more, pointer, old, block) = tidy.underway in
      (
        stored (fds s.born) s,
        rw (pointer, block) refl,
        record {
          underway = (one_more, pointer, move_self s.born s.blocks _);
          handed = λ i lt.
              Handed-kept fds s (stored (fds s.born) s) i refl
                (move_ne s.born s.blocks (some (fds s.born)) i (other_than i s.born lt))
                (tidy.handed i lt);
          later = tidy.later;
        },
      )

  create-Returns : (s : Acceptor) → IsTidy fds creating s → Returns creating s
  create-Returns s tidy =
      let (one_more, pointer, block) = tidy.underway in
      (
        _,
        refl,
        record {
          underway = (one_more, inr (s.born, refl, pointer));
          handed = λ i lt. elim (Bool-cases (i == s.born)) [
            | inl new ↦
                let same : i ≡ s.born = (==_iff i s.born).0 new in
                inl (
                  ap (move s.threads s.born _) same
                      ∙ move_self s.born s.threads _
                      ∙ ap created (pointer ∙ ap some (sym same)),
                  ap s.blocks same ∙ block ∙ ap (λ k. some (fds k)) (sym same),
                )
            | inr other ↦
                Handed-kept fds s (added s) i (move_ne s.born s.threads (created s.connfdp) i other)
                  refl (tidy.handed i (ground (arith, ==_iff i s.born)))
          ];
          later = λ i le.
              move_ne s.born s.threads _ i (ground arith) ∙ tidy.later i (omega (arith, le));
        },
      )

  pub main-Returns : (place : Place) (s : Acceptor) → IsTidy fds place s → Returns place s
  main-Returns making s tidy = make-Returns s tidy
  main-Returns accepting s tidy = accept-Returns s tidy
  main-Returns creating s tidy = create-Returns s tidy
