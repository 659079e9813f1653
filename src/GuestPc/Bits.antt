-- ===== src/GuestPc/Bits.antt =====
-- guest_pc_map.cpp: BitReader, a least-significant-bit-first reader over the delta stream.
use x87sidecar.Common.{
  ℕ, zero, suc, ◌+◌, ◌-◌, ◌*◌, ◌/◌, ◌%◌, ◌^◌, Bool, ◌&&◌, if◌then◌else◌, ◌==◌, ltb, leb, List, [],
  length, get_elem?, Option, none, some,
}
use x87sidecar.GuestPc.Reader.{Reader, u64_mod}

-- kStreamWindow.
abbrev pub stream_window : ℕ
stream_window = 256

-- The stream: its bytes in memory, or a reader with the stream's address and size.
pub data Stream : Type 0 where
  memory : List ℕ → Stream
  remote : Reader → ℕ → ℕ → Stream

pub record BitReader : Type 0 where
  pub pos : ℕ
  pub bit : ℕ
  pub win_start : ℕ
  pub win : List ℕ

-- A reader that starts at a byte of the stream.
abbrev pub bit_reader : ℕ → BitReader
bit_reader start_byte = record { pos = start_byte; bit = 0; win_start = 0; win = [] }

abbrev pub min_of : ℕ → ℕ → ℕ
min_of a b = if ltb a b then a else b

-- The window that a read at `idx` pulls in.
abbrev pub refill : ℕ → BitReader → Option (List ℕ) → Option BitReader
refill idx br none = none
refill idx br (some w) = some (record br { win_start = idx; win = w })

abbrev pub in_window : ℕ → BitReader → Bool
in_window idx br = leb br.win_start idx && ltb idx (br.win_start + length br.win)

abbrev pub windowed : Reader → ℕ → ℕ → ℕ → BitReader → Option BitReader
windowed reader addr size idx br =
    if in_window idx br
    then some br
    else refill idx br (reader ((addr + idx) % u64_mod) (min_of (size - idx) stream_window))

abbrev pub with_byte : BitReader → Option ℕ → Option (ℕ × BitReader)
with_byte br none = none
with_byte br (some b) = some (b, br)

abbrev pub from_window : ℕ → Option BitReader → Option (ℕ × BitReader)
from_window idx none = none
from_window idx (some br) = with_byte br (get_elem? br.win (idx - br.win_start))

-- byteAt.
unfoldable pub byte_at : Stream → ℕ → BitReader → Option (ℕ × BitReader)
byte_at (memory bytes) idx br = with_byte br (get_elem? bytes idx)
byte_at (remote reader addr size) idx br =
    if ltb idx size then from_window idx (windowed reader addr size idx br) else none

-- Past one bit.
abbrev pub advance : BitReader → BitReader
advance br =
    if br.bit + 1 == 8
    then record br { bit = 0; pos = br.pos + 1 }
    else record br { bit = br.bit + 1 }

abbrev pub bit_of : Option (ℕ × BitReader) → Option (ℕ × BitReader)
bit_of none = none
bit_of (some (b, br)) = some (b / 2 ^ br.bit % 2, advance br)

unfoldable pub read_bit : Stream → BitReader → Option (ℕ × BitReader)
read_bit stream br = bit_of (byte_at stream br.pos br)

-- The bits of a value from bit `i` on, `n` of them; `v |= bit << i` sets a bit that is clear.
unfoldable pub read_value : Stream → ℕ → ℕ → ℕ → BitReader → Option (ℕ × BitReader)
read_value stream zero i v br = some (v, br)
read_value stream (suc n) i v br = elim (read_bit stream br) [
  | none ↦ none
  | some (b, br') ↦ read_value stream n (suc i) (v + b * 2 ^ i) br'
]

-- raw32.
unfoldable pub raw32 : Stream → BitReader → Option (ℕ × BitReader)
raw32 stream br = read_value stream 32 0 0 br

-- The unary prefix of rice: `fuel` bounds the bits that it may look at.
unfoldable pub prefix : ℕ → Stream → ℕ → ℕ → BitReader → Option (ℕ × BitReader)
prefix zero stream k q br = none
prefix (suc fuel) stream k q br = elim (read_bit stream br) [
  | none ↦ none
  | some (b, br') ↦
      let more = prefix fuel stream k (suc q) br' in
      if b == 0 then some (q, br') else if ltb (0xffffffff / 2 ^ k) (suc q) then none else more
]

-- A prefix has at most as many one bits as 0xffffffff >> k allows.
abbrev pub prefix_fuel : ℕ → ℕ
prefix_fuel k = suc (0xffffffff / 2 ^ k)

abbrev pub with_low_bits : Stream → ℕ → Option (ℕ × BitReader) → Option (ℕ × BitReader)
with_low_bits stream k none = none
with_low_bits stream k (some (q, br)) = read_value stream k 0 (q * 2 ^ k) br

-- BitReader::rice.
unfoldable pub rice : ℕ → Stream → BitReader → Option (ℕ × BitReader)
rice k stream br = with_low_bits stream k (prefix (prefix_fuel k) stream k 0 br)
