-- ===== src/Registry/Threads/Order.antt =====
-- src/client_registry.c: what the threads hold of the registry, and the order that they keep.
use mathlib.Core.List.{Perm}
use bourse_server.Base.{
  ℕ, zero, suc, ◌+◌, ◌<◌, ◌≡◌, List, [], ◌∷◌, ◌++◌, ℤ, pos, minus_one, length, total,
}
use bourse_server.Registry.Contents.{registered}
use bourse_server.Registry.Invariant.{empty_value}
use bourse_server.Registry.Threads.Steps.{
  Counter, connected, has_slot, register_locked, found, stored, counted, joined, announcing,
  serving, has_item, unregister_locked, at_entry, cleared, uncounted, left, returning, gone,
  refused, missing, missing_returning, failed, Shared,
}

-- 1 for a thread that has a slot; that has the mutex; that has an item to take; that `count` counts;
-- that stands for the value 0 of `count_mutex`; that has its descriptor in the array; that has met
-- with a failure.
pub record Holding : Type 0 where
  pub slot : ℕ
  pub lock : ℕ
  pub item : ℕ
  pub counts : ℕ
  pub marks : ℕ
  pub entry : ℕ
  pub failure : ℕ

abbrev row : ℕ → ℕ → ℕ → ℕ → ℕ → ℕ → Holding
row slot lock item counts marks entry = record {
  slot = slot;
  lock = lock;
  item = item;
  counts = counts;
  marks = marks;
  entry = entry;
  failure = 0;
}

abbrev failing : Holding
failing = record (row 0 0 0 0 0 0) { failure = 1 }

abbrev pub holding : Counter → Holding
holding connected = row 0 0 0 0 0 0
holding has_slot = row 1 0 0 0 0 0
holding register_locked = row 1 1 0 0 0 0
holding (found i) = row 1 1 0 0 0 0
holding stored = row 1 1 0 0 0 1
holding counted = row 1 1 0 1 0 1
holding joined = row 1 1 0 1 1 1
holding announcing = row 1 0 0 1 1 1
holding serving = row 1 0 1 1 1 1
holding has_item = row 1 0 0 1 1 1
holding unregister_locked = row 1 1 0 1 1 1
holding (at_entry i) = row 1 1 0 1 1 1
holding cleared = row 1 1 0 1 1 0
holding uncounted = row 1 1 0 0 1 0
holding left = row 1 1 0 0 0 0
holding returning = row 1 0 0 0 0 0
holding gone = row 0 0 0 0 0 0
holding refused = failing
holding missing = failing
holding missing_returning = failing
holding failed = failing

abbrev pub slot_of : Counter → ℕ
slot_of c = (holding c).slot

abbrev pub lock_of : Counter → ℕ
lock_of c = (holding c).lock

abbrev pub item_of : Counter → ℕ
item_of c = (holding c).item

abbrev pub counts_of : Counter → ℕ
counts_of c = (holding c).counts

abbrev pub marks_of : Counter → ℕ
marks_of c = (holding c).marks

abbrev pub entry_of : Counter → ℕ
entry_of c = (holding c).entry

abbrev pub failure_of : Counter → ℕ
failure_of c = (holding c).failure

abbrev pub entered : ℕ → ℤ → List ℤ → List ℤ
entered zero fd l = l
entered (suc k) fd l = fd ∷ l

-- The descriptors of the first `n` threads that have them in the array.
unfoldable pub present : ℕ → (ℕ → ℤ) → (ℕ → Counter) → List ℤ
present zero fds threads = []
present (suc n) fds threads = entered (entry_of (threads n)) (fds n) (present n fds threads)

-- What a thread between a search and the store behind it knows of the array.
abbrev pub Knows : ℤ → Counter → List ℤ → Type 0
Knows fd (found i) entries =
    (pre : List ℤ) × (rest : List ℤ) × (entries ≡ pre ++ minus_one ∷ rest) × (i ≡ length pre)
Knows fd (at_entry i) entries =
    (pre : List ℤ) × (rest : List ℤ) × (entries ≡ pre ++ fd ∷ rest) × (i ≡ length pre)
Knows fd c entries = Unit {0}

-- The registry accounts for what the threads hold.
pub record IsOrderly (n : ℕ) (fds : ℕ → ℤ) (s : Shared) : Type 0 where
  pub size : length s.registry.fds ≡ s.registry.n
  pub slots : s.registry.slots + total slot_of n s.threads ≡ s.registry.n
  pub lock : s.registry.mutex + total lock_of n s.threads ≡ 1
  pub items : s.registry.items ≡ total item_of n s.threads
  pub count : s.registry.count ≡ pos (total counts_of n s.threads)
  pub marks : s.registry.count_mutex ≡ empty_value (total marks_of n s.threads)
  pub no_failure : total failure_of n s.threads ≡ 0
  pub entries : Perm (registered s.registry.fds) (present n fds s.threads)
  pub knows : (i : ℕ) → i < n → Knows (fds i) (s.threads i) s.registry.fds
