-- ===== src/Main/Hangup.antt =====
-- src/main.c: the handler of SIGHUP between two steps of the loop that accepts connections.
use bourse_server.Base.{
  ℕ, suc, ◌<◌, ◌≡◌, refl, ◌⊎◌, inl, inr, none, some, ℤ, M, done, fault, arith, move, move_self,
  move_ne, ◌>>=◌, get,
}
use bourse_server.Main.Accept.{
  created, has_read, serving, Acceptor, begin_service, read_argument, free_argument, Place, making,
  accepting, creating, Accepts, free_int,
}
use bourse_server.Main.Handover.{Handed, Handed-kept, IsTidy}
use bourse_server.Main.Served.{Served, Handed-Served, Accepts-IsTidy}

-- `free(connfdp)`, in the handler of SIGHUP.
unfoldable pub sighup_frees : M Acceptor (Unit {0})
sighup_frees = do p ← get (λ s. s.connfdp); free_int p

-- The thread that was created last has freed the block at `connfdp` itself, and is past that.
abbrev pub FreesTwice : (ℕ → ℤ) → Acceptor → Type 0
FreesTwice fds s =
    (k : ℕ) × (s.born ≡ suc k) × (s.threads k ≡ serving (fds k)) × (sighup_frees s ≡ fault)

-- The thread that was created last has still to read the block, which is freed.
abbrev pub ReadsFreed : Acceptor → Type 0
ReadsFreed s =
    (k : ℕ) × (s' : Acceptor) × (s.born ≡ suc k)
    × (s.threads k ≡ created (some k))
    × (sighup_frees s ≡ done tt s')
    × (begin_service k (some k) s' ≡ fault)

-- The thread that was created last has read the block and has still to free it, which is freed.
abbrev pub FreesFreed : (ℕ → ℤ) → Acceptor → Type 0
FreesFreed fds s =
    (k : ℕ) × (s' : Acceptor) × (s.born ≡ suc k)
    × (s.threads k ≡ has_read (some k) (fds k))
    × (sighup_frees s ≡ done tt s')
    × (free_argument k (some k) (fds k) s' ≡ fault)

-- There is no thread yet, or the block is that of the round that `main` is in, and the threads keep
-- theirs.
abbrev pub FreesOwn : (ℕ → ℤ) → Acceptor → Type 0
FreesOwn fds s =
    (s' : Acceptor) × (sighup_frees s ≡ done tt s') × ((i : ℕ) → i < s.born → Served fds s' i)

-- By the place of `main`.
abbrev pub HangsUp : (ℕ → ℤ) → Place → Acceptor → Type 0
HangsUp fds making s =
    ((s.born ≡ 0) × (sighup_frees s ≡ done tt s))
    ⊎ (FreesTwice fds s ⊎ (ReadsFreed s ⊎ FreesFreed fds s))
HangsUp fds accepting s = FreesOwn fds s
HangsUp fds creating s = FreesOwn fds s

module _ (junk fds : ℕ → ℤ) where
  last_thread :
      (s : Acceptor) (k : ℕ)
      → s.born ≡ suc k
      → s.connfdp ≡ some k
      → Handed fds s k
      → FreesTwice fds s ⊎ (ReadsFreed s ⊎ FreesFreed fds s)
  unfolding sighup_frees begin_service read_argument free_argument
  last_thread s k last pointer (inr (inr (at_work, freed))) =
      inl (k, last, at_work, rw (pointer, freed) refl)
  last_thread s k last pointer (inl (own, block)) = inr (
      inl (
        k,
        record s { blocks = move s.blocks k none },
        last,
        own,
        rw (pointer, block) refl,
        ground (arith, move_self k s.blocks none),
      ))
  last_thread s k last pointer (inr (inl (reads, block))) = inr (
      inr (
        k,
        record s { blocks = move s.blocks k none },
        last,
        reads,
        rw (pointer, block) refl,
        ground (arith, move_self k s.blocks none),
      ))

  frees_own :
      (place : Place) (s : Acceptor) (held : ℤ)
      → IsTidy fds place s
      → s.connfdp ≡ some s.born
      → s.blocks s.born ≡ some held
      → FreesOwn fds s
  unfolding sighup_frees
  frees_own place s held tidy pointer block = (
    record s { blocks = move s.blocks s.born none },
    rw (pointer, block) refl,
    λ i lt. Handed-Served junk fds _ i (
        Handed-kept fds s (record s { blocks = move s.blocks s.born none }) i refl
          (move_ne s.born s.blocks none i (ground (arith, lt))) (tidy.handed i lt)),
  )

  by_place : (place : Place) (s : Acceptor) → IsTidy fds place s → HangsUp fds place s
  unfolding sighup_frees
  by_place making s tidy = elim tidy.underway.1 [
    | inl (nobody, null) ↦ inl (nobody, rw null refl)
    | inr (k, last, pointer) ↦
        inr (last_thread s k last pointer (tidy.handed k (omega (arith, last))))
  ]
  by_place accepting s tidy =
      let (one_more, pointer, old, block) = tidy.underway in
      frees_own accepting s old tidy pointer block
  by_place creating s tidy =
      let (one_more, pointer, block) = tidy.underway in
      frees_own creating s (fds s.born) tidy pointer block

  -- The handler of SIGHUP, which frees the block at `connfdp`, is run between any two steps of the
  -- loop and of the threads that it has started. Before the first client it frees nothing. While
  -- `main` waits in Accept or is about to create the thread, it frees the block of the round, and
  -- every thread still gets its descriptor. Between the creation of a thread and the next block it
  -- frees the block a second time if the thread has freed it; if not, the thread will read a block
  -- that has been freed, or, where it has read it already, free it a second time. All three are
  -- undefined behaviour.
  pub Accepts-HangsUp :
      {place : Place} {s : Acceptor} → Accepts junk fds place s → HangsUp fds place s
  Accepts-HangsUp {place} {s} run = by_place place s (Accepts-IsTidy junk fds run)
