-- ===== src/GuestPc/Reader.antt =====
-- guest_pc_map.hpp: what is read from the inspected process. Bytes are numbers below 256.
use x87sidecar.Common.{ℕ, zero, suc, ◌+◌, ◌*◌, ◌^◌, List, [], ◌∷◌, drop, Option}

-- `len` bytes at an address, or nothing when the read fails.
abbrev pub Reader : Type 0
Reader = ℕ → ℕ → Option (List ℕ)

abbrev pub u64_mod : ℕ
u64_mod = 2 ^ 64

abbrev pub u32_mod : ℕ
u32_mod = 2 ^ 32

-- The first `n` bytes as a little-endian number; missing bytes are zero.
abbrev pub little_endian : ℕ → List ℕ → ℕ
little_endian zero bytes = 0
little_endian (suc n) [] = 0
little_endian (suc n) (b ∷ rest) = b + 256 * little_endian n rest

-- A field of `n` bytes at `offset`.
abbrev pub field_at : ℕ → ℕ → List ℕ → ℕ
field_at offset n bytes = little_endian n (drop offset bytes)

-- Status, with the out parameter of a resolved call.
pub data Status (A : Type 0) : Type 0 where
  resolved : A → Status A
  not_translated unavailable : Status A
