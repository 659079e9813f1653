-- ===== src/GuestPc/RiceLaws.antt =====
-- guest_pc_map.cpp, BitReader::rice and raw32: they decode the codes of the format.
use x87sidecar.Common.{
  ℕ, zero, suc, ◌+◌, ◌*◌, ◌/◌, ◌%◌, ◌^◌, ◌≤◌, ◌<◌, ◌≡◌, ap, sym, ◌∙◌, subst, append_assoc, [], ◌∷◌,
  ◌++◌, replicate, some, arith,
}
use native.Mathlib.Nat.{
  one-le-pow, le-div_iff_mul-le, div-mul-le_self, div-add-mod', mod-lt, two-pow-succ,
}
use x87sidecar.GuestPc.Bits.{Stream, BitReader, read_value, raw32, prefix, prefix_fuel, rice}
use x87sidecar.GuestPc.Coding.{low_bits, rice_bits, Reads, done, bit, Reads-split}

pos_pow : (k : ℕ) → 0 < 2 ^ k
pos_pow k = one-le-pow k 2 (omega arith)

-- A value below 2^32 has a prefix that rice takes.
prefix_within : (k v : ℕ) → v < 2 ^ 32 → v / 2 ^ k ≤ 0xffffffff / 2 ^ k
prefix_within k v h = (le-div_iff_mul-le (pos_pow k)).1 (omega (arith, div-mul-le_self v (2 ^ k)))

two_pow : (i : ℕ) → 2 ^ suc i ≡ 2 * 2 ^ i
two_pow i = omega (arith, two-pow-succ i)

-- The value with bits from bit `i` on: one bit and the rest.
digit_sum : (p w v : ℕ) → v + w % 2 * p + w / 2 * (2 * p) ≡ v + w * p
digit_sum p w v =
    let e : w ≡ w % 2 + w / 2 * 2 = omega arith in
    let spread : v + w % 2 * p + w / 2 * (2 * p) ≡ v + (w % 2 + w / 2 * 2) * p = grind arith in
    spread ∙ ap (λ (t : ℕ). v + t * p) (sym e)

module _ {stream : Stream} where
  pub read_value-low_bits :
      (n i v w : ℕ) {br br' : BitReader}
      → w < 2 ^ n
      → Reads stream br (low_bits n w) br'
      → read_value stream n i v br ≡ some (v + w * 2 ^ i, br')
  unfolding read_value low_bits
  read_value-low_bits zero i v w h done = ground arith
  read_value-low_bits (suc n) i v w h (bit _ e r) =
      let half : w / 2 < 2 ^ n = omega (arith, two-pow-succ n) in
      let sum : v + w % 2 * 2 ^ i + w / 2 * 2 ^ suc i ≡ v + w * 2 ^ i =
        rw (two_pow i) (digit_sum (2 ^ i) w v) in
      ground (arith, read_value-low_bits n (suc i) (v + w % 2 * 2 ^ i) (w / 2) half r)

  -- raw32 decodes 32 bits, the least significant first.
  pub raw32-low_bits :
      (w : ℕ) {br br' : BitReader}
      → w < 2 ^ 32
      → Reads stream br (low_bits 32 w) br'
      → raw32 stream br ≡ some (w, br')
  unfolding raw32
  raw32-low_bits w {br' = br'} h r =
      read_value-low_bits 32 0 0 w h r ∙ ap (λ (t : ℕ). some (t, br')) (omega arith)

  prefix-ones :
      (n fuel k q : ℕ) {br br' : BitReader}
      → q + n ≤ 0xffffffff / 2 ^ k
      → n < fuel
      → Reads stream br (replicate n 1 ++ 0 ∷ []) br'
      → prefix fuel stream k q br ≡ some (q + n, br')
  unfolding prefix
  prefix-ones n zero k q h f r = absurd (omega arith)
  prefix-ones zero (suc fuel) k q h f (bit _ e done) = ground arith
  prefix-ones (suc n) (suc fuel) k q h f (bit _ e r) =
      ground (arith, prefix-ones n fuel k (suc q) (omega arith) (omega arith) r)

  -- rice decodes a Golomb-Rice code of a 32-bit value.
  pub rice-rice_bits :
      (k v : ℕ) {br br' : BitReader}
      → v < 2 ^ 32
      → Reads stream br (rice_bits k v) br'
      → rice k stream br ≡ some (v, br')
  unfolding rice rice_bits
  rice-rice_bits k v {br} {br'} h r =
      let regroup = append_assoc (replicate (v / 2 ^ k) 1) (0 ∷ []) (low_bits k (v % 2 ^ k)) in
      let r' = subst (λ bs. Reads stream br bs br') (sym regroup) r in
      let (mid, ones, low) =
        Reads-split (replicate (v / 2 ^ k) 1 ++ 0 ∷ []) (low_bits k (v % 2 ^ k)) r' in
      let q = prefix_within k v h in
      let first = prefix-ones (v / 2 ^ k) (prefix_fuel k) k 0 (omega arith) (omega arith) ones in
      let rest =
        read_value-low_bits k 0 (v / 2 ^ k * 2 ^ k) (v % 2 ^ k) (mod-lt v (pos_pow k)) low in
      let whole = div-add-mod' v (2 ^ k) in ground (arith, first, rest, whole)
