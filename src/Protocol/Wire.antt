-- ===== src/Protocol/Wire.antt =====
-- The connections, and the two calls of csapp.c by which packets are moved over them.
use bourse_server.Base.{
  ℕ, ◌≤◌, ◌≡◌, ◌≢◌, ◌⊎◌, List, [], ◌++◌, ℤ, pos, minus_one, int_eq, length, take, drop,
  if◌then◌else◌,
}

-- For each descriptor, the bytes that the client will still send before it closes the connection,
-- and those that it has been sent.
pub record Wire : Type 0 where
  pub incoming : ℤ → List ℕ
  pub outgoing : ℤ → List ℕ

abbrev pub update : (ℤ → List ℕ) → ℤ → List ℕ → ℤ → List ℕ
update f fd bs x = if int_eq x fd then bs else f x

abbrev pub deliver : ℤ → List ℕ → Wire → Wire
deliver fd bs w = record w { outgoing = update w.outgoing fd (w.outgoing fd ++ bs) }

abbrev pub consume : ℤ → ℕ → Wire → Wire
consume fd n w = record w { incoming = update w.incoming fd (drop n (w.incoming fd)) }

-- The connection `fd` with `bs` left to read.
abbrev pub with_incoming : ℤ → List ℕ → Wire → Wire
with_incoming fd bs w = record w { incoming = update w.incoming fd bs }

-- rio_writen: all the bytes and their number, or an error after some of them.
pub record Delivered (fd : ℤ) (bs : List ℕ) (w : Wire) (r : ℤ × Wire) : Type 0 where
  pub result : r.0 ≡ pos (length bs)
  pub wire : r.1 ≡ deliver fd bs w

pub record Undelivered (fd : ℤ) (bs : List ℕ) (w : Wire) (r : ℤ × Wire) : Type 0 where
  pub sent : ℕ
  pub result : r.0 ≡ minus_one
  pub wire : r.1 ≡ deliver fd (take sent bs) w

abbrev pub Writes : ℤ → List ℕ → Wire → ℤ × Wire → Type 0
Writes fd bs w r = Delivered fd bs w r ⊎ Undelivered fd bs w r

-- rio_readn: `n` bytes, or fewer where the connection ends, and their number; or an error after
-- some of them. The bytes read are in the buffer in both cases.
pub record Received (fd : ℤ) (n : ℕ) (w : Wire) (r : ℤ × List ℕ × Wire) : Type 0 where
  pub result : r.0 ≡ pos (length r.1)
  pub bytes : r.1 ≡ take n (w.incoming fd)
  pub wire : r.2 ≡ consume fd n w

pub record Unreceived (fd : ℤ) (n : ℕ) (w : Wire) (r : ℤ × List ℕ × Wire) : Type 0 where
  pub got : ℕ
  pub got-le : got ≤ n
  pub result : r.0 ≡ minus_one
  pub bytes : r.1 ≡ take got (w.incoming fd)
  pub wire : r.2 ≡ consume fd got w

abbrev pub Reads : ℤ → ℕ → Wire → ℤ × List ℕ × Wire → Type 0
Reads fd n w r = Received fd n w r ⊎ Unreceived fd n w r

-- `rio_writen` and `rio_readn` of csapp.c with what they are documented to do, and the two values
-- that come from the system: the clock, and the bytes of a block that malloc(3) has just given.
pub record Rio : Type 0 where
  pub rio_writen : ℤ → List ℕ → Wire → ℤ × Wire
  pub rio_readn : ℤ → ℕ → Wire → ℤ × List ℕ × Wire
  pub clock_gettime : Wire → ℕ × ℕ
  pub malloc_bytes : ℕ → List ℕ
  pub rio_writen_lem : (fd : ℤ) (bs : List ℕ) (w : Wire) → Writes fd bs w (rio_writen fd bs w)
  pub rio_readn_lem : (fd : ℤ) (n : ℕ) (w : Wire) → Reads fd n w (rio_readn fd n w)
  pub rio_writen_bad_fd :
      (bs : List ℕ) (w : Wire) → bs ≢ [] → rio_writen minus_one bs w ≡ (minus_one, w)
  pub malloc_bytes_lem : (n : ℕ) → length (malloc_bytes n) ≡ n
