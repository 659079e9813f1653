-- ===== src/GuestPc/Coding.antt =====
-- The format of the delta stream, as the bits that encode each value, and the reader's
-- view of them. It is stated apart from the decoder of guest_pc_map.cpp.
use x87sidecar.Common.{ℕ, zero, suc, ◌/◌, ◌%◌, ◌^◌, ◌≡◌, refl, List, [], ◌∷◌, ◌++◌, replicate, some}
use x87sidecar.GuestPc.Bits.{Stream, BitReader, read_bit}

-- The `n` low bits of a value, the least significant first.
unfoldable pub low_bits : ℕ → ℕ → List ℕ
low_bits zero v = []
low_bits (suc n) v = (v % 2) ∷ low_bits n (v / 2)

-- A Golomb-Rice code: v >> k one bits, a zero bit, and the k low bits.
unfoldable pub rice_bits : ℕ → ℕ → List ℕ
unfolding low_bits
rice_bits k v = replicate (v / 2 ^ k) 1 ++ 0 ∷ low_bits k (v % 2 ^ k)

-- The reader finds these bits next, and is then at its last index.
pub data Reads (stream : Stream) : BitReader → List ℕ → BitReader → Type 0 where
  done : {br : BitReader} → Reads stream br [] br
  bit :
      {br br' end : BitReader} (b : ℕ) {bs : List ℕ}
      → read_bit stream br ≡ some (b, br')
      → Reads stream br' bs end
      → Reads stream br (b ∷ bs) end

module _ {stream : Stream} where
  -- Where the first of two runs of bits ends.
  pub Reads-split :
      {br end : BitReader} (xs ys : List ℕ)
      → Reads stream br (xs ++ ys) end
      → (mid : BitReader) × Reads stream br xs mid × Reads stream mid ys end
  Reads-split {br} [] ys r = (br, done, r)
  Reads-split (a ∷ xs) ys (bit _ e r) =
      let (mid, first, rest) = Reads-split xs ys r in (mid, bit a e first, rest)

  pub Reads-append :
      {br mid end : BitReader} (xs ys : List ℕ)
      → Reads stream br xs mid
      → Reads stream mid ys end
      → Reads stream br (xs ++ ys) end
  Reads-append [] ys done s = s
  Reads-append (a ∷ xs) ys (bit _ e r) s = bit a e (Reads-append xs ys r s)

  pub Reads-nil : {br end : BitReader} → Reads stream br [] end → br ≡ end
  Reads-nil done = refl
