-- ===== src/GuestPc/Step.antt =====
-- guest_pc_map.cpp: step, one advance along the delta stream, and the loops that repeat it.
use x87sidecar.Common.{
  ℕ, ◌+◌, ◌*◌, ◌%◌, ◌^◌, Bool, true, false, ◌&&◌, not, if◌then◌else◌, ◌==◌, leb, Option, none, some,
}
use x87sidecar.GuestPc.Reader.{u32_mod}
use x87sidecar.GuestPc.Bits.{Stream, BitReader, raw32, rice}

-- A decoder takes the reader's state along; `none` is a failed read or an inconsistency.
abbrev pub Decoder : Type 0 → Type 0
Decoder A = BitReader → Option (A × BitReader)

infixl 5 ◌>>=◌ ◌>>◌
abbrev pub ◌>>=◌ : {A B : Type 0} → Decoder A → (A → Decoder B) → Decoder B
◌>>=◌ m f br = elim (m br) [ none ↦ none | some (a, br') ↦ f a br' ]

abbrev pub ◌>>◌ : {A B : Type 0} → Decoder A → Decoder B → Decoder B
m >> k = m >>= λ _. k

abbrev pub give : {A : Type 0} → A → Decoder A
give a br = some (a, br)

abbrev pub guard : Bool → Decoder (Unit {0})
guard true br = some (tt, br)
guard false br = none

-- kMaxFragmentSize.
abbrev pub max_fragment_size : ℕ
max_fragment_size = 64 * 2 ^ 20

-- rice_k[1] and rice_k[2].
pub record RiceK : Type 0 where
  pub k1 : ℕ
  pub k2 : ℕ

pub record Deltas : Type 0 where
  pub d_arm : ℕ
  pub d_x86 : ℕ

abbrev pub deltas : ℕ → ℕ → Deltas
deltas a x = record { d_arm = a; d_x86 = x }

-- What switch (selector) makes of a selector and, for 2, of `extra`: hi | lo, whose bits differ.
abbrev pub flag_of : ℕ → ℕ → ℕ
flag_of selector extra =
    if selector == 1
    then 1
    else if selector == 2
    then extra * 256 % 2 ^ 16 + 1
    else if selector == 3
    then 2
    else if selector == 4
    then 3
    else 0

module _ (stream : Stream) where
  unfoldable pub raw_pair : Decoder Deltas
  raw_pair = do a ← raw32 stream; x ← raw32 stream; give (deltas a x)

  -- A nonzero ARM delta is followed by the x86 delta, a zero one by both in full.
  unfoldable pub pair_after : ℕ → ℕ → Decoder Deltas
  pair_after k1 a = if a == 0 then raw_pair else (do x ← rice k1 stream; give (deltas a x))

  unfoldable pub extra_of : ℕ → ℕ → Decoder ℕ
  extra_of k2 selector = if selector == 2 then rice k2 stream else give 0

  unfoldable pub flagged_pair : RiceK → ℕ → Decoder (Deltas × ℕ)
  flagged_pair k selector = do
    extra ← extra_of k.k2 selector
    a ← rice k.k2 stream
    d ← pair_after k.k1 a
    give (d, flag_of selector extra)

  -- selector &= 0xff.
  unfoldable pub escaped_pair : RiceK → ℕ → Decoder (Deltas × ℕ)
  escaped_pair k selector =
      if selector == 0 then (do d ← raw_pair; give (d, 0)) else flagged_pair k selector

  unfoldable pub coded_pair : RiceK → ℕ → Decoder (Deltas × ℕ)
  coded_pair k a =
      if a == 0
      then (do selector ← rice k.k2 stream; escaped_pair k (selector % 256))
      else (do x ← rice k.k1 stream; give (deltas a x, 0))

  unfoldable pub read_deltas : RiceK → Decoder (Deltas × ℕ)
  read_deltas k = do a ← rice k.k2 stream; coded_pair k a

-- d_arm == 0 || d_arm > kMaxFragmentSize / 4.
abbrev pub plausible : ℕ → Bool
plausible d = not (d == 0) && leb d (2 ^ 24)

-- Where a decode stands: the running offsets, the last step's flags, and the reader.
pub record Cursor : Type 0 where
  pub x86 : ℕ
  pub arm : ℕ
  pub flags : ℕ
  pub reader : BitReader

abbrev pub moved : Cursor → Deltas → ℕ → BitReader → Cursor
moved c d flag br = record {
  x86 = (c.x86 + d.d_x86) % u32_mod;
  arm = (c.arm + d.d_arm * 4) % u32_mod;
  flags = flag;
  reader = br;
}

abbrev pub step_with : Cursor → Option ((Deltas × ℕ) × BitReader) → Option Cursor
step_with c none = none
step_with c (some ((d, flag), br)) = if plausible d.d_arm then some (moved c d flag br) else none

-- step.
unfoldable pub step : Stream → RiceK → Cursor → Option Cursor
step stream k c = step_with c (read_deltas stream k c.reader)

abbrev pub increasing : ℕ → Option Cursor → Option Cursor
increasing prev_arm none = none
increasing prev_arm (some c) = if leb c.arm prev_arm then none else some c

-- A step in the loops of walkToTarget and decodeMapChunk, with the test of the ARM column.
unfoldable pub next : Stream → RiceK → Cursor → Option Cursor
next stream k c = increasing c.arm (step stream k c)
