-- ===== src/Bytes.antt =====
-- Byte strings and slices as the program uses them: `encoding/binary`'s BigEndian, and slicing up
-- to the capacity. A byte is a number below 256; a `[]byte` whose capacity matters is a `Slice`.
pub mod Laws
use netproject.Shared.{ℕ, ◌+◌, ◌*◌, ◌/◌, ◌%◌, ◌^◌, ◌<◌, List, [], ◌∷◌, ◌++◌, Option, none, some}
use netproject.Shared.{length, take, drop, Outcome, ok, panic}

abbrev pub IsByte : ℕ → Type 0
IsByte b = b < 256

abbrev pub IsUint64 : ℕ → Type 0
IsUint64 v = v < 2 ^ 64

-- `binary.BigEndian.AppendUint64([]byte{}, v)`.
unfoldable pub uint64_bytes : ℕ → List ℕ
uint64_bytes v =
    v / 2 ^ 56 % 256
    ∷ v / 2 ^ 48 % 256
    ∷ v / 2 ^ 40 % 256
    ∷ v / 2 ^ 32 % 256
    ∷ v / 2 ^ 24 % 256
    ∷ v / 2 ^ 16 % 256
    ∷ v / 2 ^ 8 % 256
    ∷ v % 256
    ∷ []

-- `binary.BigEndian.AppendUint32([]byte{}, v)`.
unfoldable pub uint32_bytes : ℕ → List ℕ
uint32_bytes v = v / 2 ^ 24 % 256 ∷ v / 2 ^ 16 % 256 ∷ v / 2 ^ 8 % 256 ∷ v % 256 ∷ []

-- `binary.BigEndian.Uint64(b[:8])`; `none` where `b[:8]` is out of range, a panic.
unfoldable pub uint64_value : List ℕ → Option ℕ
uint64_value (a ∷ b ∷ c ∷ d ∷ e ∷ f ∷ g ∷ h ∷ rest) =
    some
      (a * 2 ^ 56 + b * 2 ^ 48 + c * 2 ^ 40 + d * 2 ^ 32 + e * 2 ^ 24 + f * 2 ^ 16 + g * 2 ^ 8 + h)
uint64_value _ = none

-- `binary.BigEndian.Uint32(b[:4])`.
unfoldable pub uint32_value : List ℕ → Option ℕ
uint32_value (a ∷ b ∷ c ∷ d ∷ rest) = some (a * 2 ^ 24 + b * 2 ^ 16 + c * 2 ^ 8 + d)
uint32_value _ = none

-- A slice: its elements, and what its array holds between the length and the capacity.
pub record Slice : Type 0 where
  pub bytes : List ℕ
  pub spare : List ℕ

-- `binary.BigEndian.Uint64(s[:8])`: Go checks the bound 8 against the capacity, not the length.
unfoldable pub peek_uint64 : Slice → Option ℕ
peek_uint64 s = uint64_value (s.bytes ++ s.spare)

-- `binary.BigEndian.PutUint64(s[:8], v)`, where `s[:8]` is in range.
unfoldable pub poke_uint64 : ℕ → Slice → Slice
poke_uint64 v s =
    let array = uint64_bytes v ++ drop 8 (s.bytes ++ s.spare) in
    record { bytes = take (length s.bytes) array; spare = drop (length s.bytes) array }
