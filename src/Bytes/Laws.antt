-- ===== src/Bytes/Laws.antt =====
-- Round trips of the big-endian codec.
use netproject.Shared.{ℕ, ◌^◌, ◌<◌, ◌≡◌, refl, List, ◌++◌, some, arith}
use netproject.Shared.{All, drop, length, ap}
use netproject.Bytes.{IsByte, IsUint64, uint64_bytes, uint32_bytes, uint64_value, uint32_value}

pub uint64_value-bytes :
    (v : ℕ) (rest : List ℕ) → IsUint64 v → uint64_value (uint64_bytes v ++ rest) ≡ some v
unfolding uint64_value uint64_bytes
uint64_value-bytes v rest h = ap some (omega arith)

pub uint32_value-bytes :
    (v : ℕ) (rest : List ℕ) → v < 2 ^ 32 → uint32_value (uint32_bytes v ++ rest) ≡ some v
unfolding uint32_value uint32_bytes
uint32_value-bytes v rest h = ap some (omega arith)

pub uint64_bytes-IsByte : (v : ℕ) → All IsByte (uint64_bytes v)
unfolding uint64_bytes
uint64_bytes-IsByte v = omega arith

pub length-uint64_bytes : (v : ℕ) → length (uint64_bytes v) ≡ 8
unfolding uint64_bytes
length-uint64_bytes v = refl

pub drop-uint64_bytes : (v : ℕ) (rest : List ℕ) → drop 8 (uint64_bytes v ++ rest) ≡ rest
unfolding uint64_bytes
drop-uint64_bytes v rest = refl
