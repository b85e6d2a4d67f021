-- ===== src/Protocol/ByteOrder.antt =====
-- htonl(3) and its kin on a little-endian machine, and the bytes of an integer in memory.
use bourse_server.Base.{ℕ, ◌+◌, ◌*◌, ◌/◌, ◌%◌, ◌^◌, ◌<◌, ◌≡◌, List, [], ◌∷◌, arith}

-- Swaps the bytes of a `uint16_t`.
unfoldable pub htons : ℕ → ℕ
htons x = x % 256 * 256 + x / 256 % 256

unfoldable pub ntohs : ℕ → ℕ
unfolding htons
ntohs x = htons x

-- Swaps the bytes of a `uint32_t`.
unfoldable pub htonl : ℕ → ℕ
htonl x = x % 256 * 16777216 + x / 256 % 256 * 65536 + x / 65536 % 256 * 256 + x / 16777216 % 256

unfoldable pub ntohl : ℕ → ℕ
unfolding htonl
ntohl x = htonl x

-- The bytes of an integer in memory, lowest first.
abbrev pub bytes2 : ℕ → List ℕ
bytes2 x = x % 256 ∷ x / 256 % 256 ∷ []

abbrev pub bytes4 : ℕ → List ℕ
bytes4 x = x % 256 ∷ x / 256 % 256 ∷ x / 65536 % 256 ∷ x / 16777216 % 256 ∷ []

abbrev pub of_bytes2 : ℕ → ℕ → ℕ
of_bytes2 a b = a + b * 256

abbrev pub of_bytes4 : ℕ → ℕ → ℕ → ℕ → ℕ
of_bytes4 a b c d = a + b * 256 + c * 65536 + d * 16777216

pub htons-lt : (x : ℕ) → htons x < 2 ^ 16
unfolding htons
htons-lt x = omega arith

pub htonl-lt : (x : ℕ) → htonl x < 2 ^ 32
unfolding htonl
htonl-lt x = omega arith

pub ntohs-htons : (x : ℕ) → x < 2 ^ 16 → ntohs (htons x) ≡ x
unfolding ntohs
ntohs-htons x h = omega arith

pub ntohl-htonl : (x : ℕ) → x < 2 ^ 32 → ntohl (htonl x) ≡ x
unfolding ntohl
ntohl-htonl x h = omega arith

pub of_bytes2-bytes2 : (x : ℕ) → x < 2 ^ 16 → of_bytes2 (x % 256) (x / 256 % 256) ≡ x
of_bytes2-bytes2 x h = omega arith

pub of_bytes4-bytes4 :
    (x : ℕ)
    → x < 2 ^ 32
    → of_bytes4 (x % 256) (x / 256 % 256) (x / 65536 % 256) (x / 16777216 % 256) ≡ x
of_bytes4-bytes4 x h = omega arith

-- The digits of a number, highest first.
abbrev pub big_endian4 : ℕ → List ℕ
big_endian4 x = x / 16777216 % 256 ∷ x / 65536 % 256 ∷ x / 256 % 256 ∷ x % 256 ∷ []

four :
    {a b c d a' b' c' d' : ℕ}
    → a ≡ a'
    → b ≡ b'
    → c ≡ c'
    → d ≡ d'
    → ◌≡◌ {A = List ℕ} (a ∷ b ∷ c ∷ d ∷ []) (a' ∷ b' ∷ c' ∷ d' ∷ [])
four e f g h = cc

-- What htonl(3) gives lies in memory with the highest byte first.
pub bytes4-htonl : (x : ℕ) → bytes4 (htonl x) ≡ big_endian4 x
unfolding htonl
bytes4-htonl x = four (omega arith) (omega arith) (omega arith) (omega arith)
