-- ===== src/Main/Accept.antt =====
-- src/main.c: the loop that accepts connections, and src/server.c: the first lines of the threads that
-- it starts.
use bourse_server.Base.{
  ℕ, suc, ◌≡◌, Option, none, some, ℤ, M, done, fault, ◌>>=◌, ◌>>◌, modify, get, move, pure,
}

-- A thread by its number: not created; created with the pointer that it is to get; with the
-- descriptor that it has read through it; with the block freed too.
pub data Thread : Type 0 where
  unborn : Thread
  created : Option ℕ → Thread
  has_read : Option ℕ → ℤ → Thread
  serving : ℤ → Thread

-- The blocks that hold an int each, the global `connfdp`, and the threads; `born` have been created.
pub record Acceptor : Type 0 where
  pub blocks : ℕ → Option ℤ
  pub next : ℕ
  pub connfdp : Option ℕ
  pub threads : ℕ → Thread
  pub born : ℕ

-- `Malloc(sizeof(int))`, of a block that holds `junk`.
abbrev pub malloc_connfdp : ℤ → M Acceptor (Unit {0})
malloc_connfdp junk = modify λ s. record s {
  blocks = move s.blocks s.next (some junk);
  next = suc s.next;
  connfdp = some s.next;
}

-- `*p = fd`.
abbrev pub store_int : Option ℕ → ℤ → M Acceptor (Unit {0})
store_int none fd s = fault
store_int (some p) fd s = elim (s.blocks p) [
  | none ↦ fault
  | some old ↦ done tt (record s { blocks = move s.blocks p (some fd) })
]

-- `*p`.
abbrev pub load_int : Option ℕ → M Acceptor ℤ
load_int none s = fault
load_int (some p) s = elim (s.blocks p) [ none ↦ fault | some fd ↦ done fd s ]

-- `free(p)`.
abbrev pub free_int : Option ℕ → M Acceptor (Unit {0})
free_int none s = done tt s
free_int (some p) s = elim (s.blocks p) [
  | none ↦ fault
  | some fd ↦ done tt (record s { blocks = move s.blocks p none })
]

-- `*connfdp = Accept(...)`, where Accept returns `fd`.
unfoldable pub accept_client : ℤ → M Acceptor (Unit {0})
accept_client fd = do p ← get (λ s. s.connfdp); store_int p fd

-- `Pthread_create(&tid, NULL, brs_client_service, connfdp)`.
abbrev pub create_thread : M Acceptor (Unit {0})
create_thread =
    modify λ s. record s { threads = move s.threads s.born (created s.connfdp); born = suc s.born }

-- `int connfd = *((int *)arg)`, by thread `i`.
unfoldable pub read_argument : ℕ → Option ℕ → M Acceptor ℤ
read_argument i arg = do
  connfd ← load_int arg
  modify (λ s. record s { threads = move s.threads i (has_read arg connfd) })
  pure connfd

-- `free(arg)`, by thread `i`.
unfoldable pub free_argument : ℕ → Option ℕ → ℤ → M Acceptor (Unit {0})
free_argument i arg connfd = do
  free_int arg
  modify (λ s. record s { threads = move s.threads i (serving connfd) })

-- `brs_client_service` up to the call of `creg_register`, by thread `i` with the argument `arg`.
unfoldable pub begin_service : ℕ → Option ℕ → M Acceptor (Unit {0})
unfolding read_argument free_argument
begin_service i arg = do connfd ← read_argument i arg; free_argument i arg connfd

-- Where `main` is in a round of the loop.
pub data Place : Type 0 where
  making accepting creating : Place

-- What `main` does there: Accept returns `fd`, the new block holds `junk`.
abbrev pub next_call : ℤ → ℤ → Place → M Acceptor (Unit {0})
next_call junk fd making = malloc_connfdp junk
next_call junk fd accepting = accept_client fd
next_call junk fd creating = create_thread

abbrev pub place_behind : Place → Place
place_behind making = accepting
place_behind accepting = creating
place_behind creating = making

-- Before the first round.
abbrev pub listening : Acceptor
listening = record { blocks = λ p. none; next = 0; connfdp = none; threads = λ i. unborn; born = 0 }

-- What `main` and the threads reach, in any order of their steps. In round `i` Accept returns
-- `fds i`, and the new block holds `junk i`.
pub data Accepts (junk fds : ℕ → ℤ) : Place → Acceptor → Type 0 where
  begun : Accepts junk fds making listening
  main_goes_on :
      {place : Place} {s s' : Acceptor}
      → Accepts junk fds place s
      → next_call (junk s.born) (fds s.born) place s ≡ done tt s'
      → Accepts junk fds (place_behind place) s'
  thread_reads :
      {place : Place} {s s' : Acceptor} {arg : Option ℕ} {connfd : ℤ} (i : ℕ)
      → Accepts junk fds place s
      → s.threads i ≡ created arg
      → read_argument i arg s ≡ done connfd s'
      → Accepts junk fds place s'
  thread_frees :
      {place : Place} {s s' : Acceptor} {arg : Option ℕ} {connfd : ℤ} (i : ℕ)
      → Accepts junk fds place s
      → s.threads i ≡ has_read arg connfd
      → free_argument i arg connfd s ≡ done tt s'
      → Accepts junk fds place s'
