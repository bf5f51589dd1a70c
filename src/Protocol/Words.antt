-- ===== src/Protocol/Words.antt =====
-- Numbers of 16 and 32 bits as bytes, in the network's order and in that of the host.
use demotool.Base.{ℕ, ◌+◌, ◌*◌, ◌/◌, ◌%◌, ◌^◌, ◌<◌, ◌≡◌, List, [], ◌∷◌, arith}
use demotool.Base.{get_or}

-- The order of the bytes of a number in the memory of a host.
pub data Endian : Type 0 where
  little big : Endian

-- The bytes of a 32-bit number, the most significant first.
unfoldable pub be32 : ℕ → List ℕ
be32 v = (v / 2 ^ 24 % 256) ∷ (v / 2 ^ 16 % 256) ∷ (v / 2 ^ 8 % 256) ∷ (v % 256) ∷ []

unfoldable pub be16 : ℕ → List ℕ
be16 v = (v / 256 % 256) ∷ (v % 256) ∷ []

-- The number that four bytes stand for, the most significant first.
unfoldable pub of_be32 : List ℕ → ℕ
of_be32 bs = get_or bs 0 0 * 2 ^ 24 + get_or bs 1 0 * 2 ^ 16 + get_or bs 2 0 * 2 ^ 8 + get_or bs 3 0

unfoldable pub of_be16 : List ℕ → ℕ
of_be16 bs = get_or bs 0 0 * 256 + get_or bs 1 0

-- The bytes of a 32-bit number in the memory of a host.
unfoldable pub store32 : Endian → ℕ → List ℕ
unfolding be32
store32 big v = be32 v
store32 little v = (v % 256) ∷ (v / 2 ^ 8 % 256) ∷ (v / 2 ^ 16 % 256) ∷ (v / 2 ^ 24 % 256) ∷ []

-- The number that four bytes in the memory of a host stand for.
unfoldable pub load32 : Endian → List ℕ → ℕ
unfolding of_be32
load32 big bs = of_be32 bs
load32 little bs =
    get_or bs 0 0 + get_or bs 1 0 * 2 ^ 8 + get_or bs 2 0 * 2 ^ 16 + get_or bs 3 0 * 2 ^ 24

-- `htonl`, and `ntohl`: the number whose bytes on the host are those of `v` in network order.
unfoldable pub htonl : Endian → ℕ → ℕ
unfolding load32 be32
htonl e v = load32 e (be32 v)

pub of_be32-be32 : (v : ℕ) → v < 2 ^ 32 → of_be32 (be32 v) ≡ v
unfolding of_be32 be32
of_be32-be32 v h = omega arith

pub of_be16-be16 : (v : ℕ) → v < 2 ^ 16 → of_be16 (be16 v) ≡ v
unfolding of_be16 be16
of_be16-be16 v h = omega arith

-- On either kind of host, what `htonl` makes of a number lies in memory in the network's order.
pub store32-htonl : (e : Endian) (v : ℕ) → v < 2 ^ 32 → store32 e (htonl e v) ≡ be32 v
unfolding store32 htonl
store32-htonl big v h = ground (arith, of_be32-be32 v)
store32-htonl little v h = ground arith

-- `ntohl` undoes `htonl`.
pub htonl-htonl : (e : Endian) (v : ℕ) → v < 2 ^ 32 → htonl e (htonl e v) ≡ v
unfolding htonl
htonl-htonl big v h = ground arith
htonl-htonl little v h = ground arith
