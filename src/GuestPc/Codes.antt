-- ===== src/GuestPc/Codes.antt =====
-- The format of a step in the delta stream, and guest_pc_map.cpp, step: it decodes every form.
use x87sidecar.Common.{
  zero, suc, ◌+◌, ◌*◌, ◌%◌, ℕ, ◌^◌, ◌<◌, ◌≡◌, refl, List, [], subst, ◌++◌, if◌then◌else◌, ◌==◌,
  some, Bool-cases, inl, inr, arith,
}
use x87sidecar.GuestPc.Bits.{Stream, BitReader, rice}
use x87sidecar.GuestPc.Step.{
  RiceK, Deltas, flag_of, raw_pair, pair_after, extra_of, flagged_pair, escaped_pair, coded_pair,
  read_deltas, give,
}
use x87sidecar.GuestPc.Coding.{low_bits, rice_bits, Reads, done, Reads-split}
use x87sidecar.GuestPc.RiceLaws.{rice-rice_bits, raw32-low_bits}

-- The two deltas, coded or in full.
pub data Pair : Type 0 where
  coded : Deltas → Pair
  raw : Deltas → Pair

-- A step's forms: the deltas alone, or behind a selector and what it brings along.
pub data Code : Type 0 where
  plain : Pair → Code
  flagged : ℕ → ℕ → Pair → Code

abbrev pub deltas_of : Pair → Deltas
deltas_of (coded d) = d
deltas_of (raw d) = d

abbrev pub code_deltas : Code → Deltas
code_deltas (plain p) = deltas_of p
code_deltas (flagged s e p) = deltas_of p

-- The flags that a selector stands for: 1, for 2 also the low byte of `e` in the second byte, 2, 3, and
-- none for any other selector.
abbrev pub flag_word : ℕ → ℕ → ℕ
flag_word (suc zero) e = 1
flag_word (suc (suc zero)) e = 1 + 2 ^ 8 * (e % 2 ^ 8)
flag_word (suc (suc (suc zero))) e = 2
flag_word (suc (suc (suc (suc zero)))) e = 3
flag_word _ e = 0

flag_of-flag_word : (s e : ℕ) → flag_of s e ≡ flag_word s e
flag_of-flag_word zero e = refl
flag_of-flag_word (suc zero) e = refl
flag_of-flag_word (suc (suc zero)) e = omega arith
flag_of-flag_word (suc (suc (suc zero))) e = refl
flag_of-flag_word (suc (suc (suc (suc zero)))) e = refl
flag_of-flag_word (suc (suc (suc (suc (suc s))))) e = ground arith

abbrev pub code_flag : Code → ℕ
code_flag (plain p) = 0
code_flag (flagged s e p) = flag_word s e

unfoldable pub raw_bits : Deltas → List ℕ
raw_bits d = low_bits 32 d.d_arm ++ low_bits 32 d.d_x86

unfoldable pub coded_bits : RiceK → Deltas → List ℕ
coded_bits k d = rice_bits k.k2 d.d_arm ++ rice_bits k.k1 d.d_x86

unfoldable pub pair_bits : RiceK → Pair → List ℕ
pair_bits k (coded d) = coded_bits k d
pair_bits k (raw d) = rice_bits k.k2 0 ++ raw_bits d

unfoldable pub extra_bits : RiceK → ℕ → ℕ → List ℕ
extra_bits k s e = if s == 2 then rice_bits k.k2 e else []

unfoldable pub code_bits : RiceK → Code → List ℕ
code_bits k (plain (coded d)) = coded_bits k d
code_bits k (plain (raw d)) = rice_bits k.k2 0 ++ (rice_bits k.k2 0 ++ raw_bits d)
code_bits k (flagged s e p) =
    rice_bits k.k2 0 ++ (rice_bits k.k2 s ++ (extra_bits k s e ++ pair_bits k p))

abbrev pub FitsPair : Pair → Type 0
FitsPair (coded d) = (0 < d.d_arm) × (d.d_arm < 2 ^ 32) × (d.d_x86 < 2 ^ 32)
FitsPair (raw d) = (d.d_arm < 2 ^ 32) × (d.d_x86 < 2 ^ 32)

-- What the form can hold: a selector is a nonzero byte, and a coded ARM delta is not zero.
abbrev pub FitsCode : Code → Type 0
FitsCode (plain p) = FitsPair p
FitsCode (flagged s e p) = (0 < s) × (s < 256) × (e < 2 ^ 32) × FitsPair p

module _ (stream : Stream) (k : RiceK) where
  raw_pair-raw_bits :
      {br end : BitReader} (d : Deltas)
      → d.d_arm < 2 ^ 32
      → d.d_x86 < 2 ^ 32
      → Reads stream br (raw_bits d) end
      → raw_pair stream br ≡ some (d, end)
  unfolding raw_pair raw_bits
  raw_pair-raw_bits d a x r =
      let (mid, first, rest) = Reads-split (low_bits 32 d.d_arm) (low_bits 32 d.d_x86) r in
      ground (arith, raw32-low_bits d.d_arm a first, raw32-low_bits d.d_x86 x rest)

  -- A coded pair: its two values.
  abbrev pub ReadsCoded : Deltas → BitReader → BitReader → Type 0
  ReadsCoded d br end =
      (mid : BitReader) × (rice k.k2 stream br ≡ some (d.d_arm, mid))
      × (rice k.k1 stream mid ≡ some (d.d_x86, end))

  coded_bits-ReadsCoded :
      {br end : BitReader} (d : Deltas)
      → FitsPair (coded d)
      → Reads stream br (coded_bits k d) end
      → ReadsCoded d br end
  unfolding coded_bits
  coded_bits-ReadsCoded d f r =
      let (mid, first, rest) = Reads-split (rice_bits k.k2 d.d_arm) (rice_bits k.k1 d.d_x86) r in
      (mid, rice-rice_bits k.k2 d.d_arm f.1 first, rice-rice_bits k.k1 d.d_x86 f.2 rest)

  -- The first value of a pair, and the pair behind it.
  abbrev pub ReadsPair : Pair → BitReader → BitReader → Type 0
  ReadsPair p br end =
      (a : ℕ) × (mid : BitReader) × (rice k.k2 stream br ≡ some (a, mid))
      × (pair_after stream k.k1 a mid ≡ some (deltas_of p, end))

  pair_bits-ReadsPair :
      {br end : BitReader} (p : Pair)
      → FitsPair p
      → Reads stream br (pair_bits k p) end
      → ReadsPair p br end
  unfolding pair_bits pair_after
  pair_bits-ReadsPair (coded d) f r =
      let (mid, first, rest) = coded_bits-ReadsCoded d f r in
      (d.d_arm, mid, first, ground (arith, f.0))
  pair_bits-ReadsPair (raw d) f r =
      let (mid, first, rest) = Reads-split (rice_bits k.k2 0) (raw_bits d) r in
      let second = raw_pair-raw_bits d f.0 f.1 rest in
      (0, mid, rice-rice_bits k.k2 0 (omega arith) first, second)

  abbrev pub ReadsExtra : ℕ → ℕ → BitReader → BitReader → Type 0
  ReadsExtra s e br end =
      (x : ℕ) × (extra_of stream k.k2 s br ≡ some (x, end)) × (flag_of s x ≡ flag_of s e)

  extra_bits-ReadsExtra :
      {br end : BitReader} (s e : ℕ)
      → e < 2 ^ 32
      → Reads stream br (extra_bits k s e) end
      → ReadsExtra s e br end
  unfolding extra_of extra_bits
  extra_bits-ReadsExtra {br} {end} s e h r = elim (Bool-cases (s == 2)) [
    | inl two ↦
        let r' = subst (λ b. Reads stream br (if b then rice_bits k.k2 e else []) end) two r in
        (e, rw two (rice-rice_bits k.k2 e h r'), refl)
    | inr other ↦
        let r' = subst (λ b. Reads stream br (if b then rice_bits k.k2 e else []) end) other r in
        (0, rw other (nothing r'), ground arith)
  ]
    where
      nothing : {br end : BitReader} → Reads stream br [] end → give {A = ℕ} 0 br ≡ some (0, end)
      nothing done = refl

  -- A step's code decodes to its deltas and its flags.
  pub read_deltas-code_bits :
      {br end : BitReader} (c : Code)
      → FitsCode c
      → Reads stream br (code_bits k c) end
      → read_deltas stream k br ≡ some ((code_deltas c, code_flag c), end)
  unfolding code_bits read_deltas coded_pair escaped_pair flagged_pair
  read_deltas-code_bits (plain (coded d)) f r =
      let (mid, first, rest) = coded_bits-ReadsCoded d f r in ground (arith, f.0)
  read_deltas-code_bits (plain (raw d)) f r =
      let (mid, first, rest) = Reads-split (rice_bits k.k2 0) (rice_bits k.k2 0 ++ raw_bits d) r in
      let (mid', second, full) = Reads-split (rice_bits k.k2 0) (raw_bits d) rest in
      ground (
        arith,
        rice-rice_bits k.k2 0 (omega arith) first,
        rice-rice_bits k.k2 0 (omega arith) second,
        raw_pair-raw_bits d f.0 f.1 full,
      )
  read_deltas-code_bits (flagged s e p) f r =
      let (m1, zero_code, r1) =
        Reads-split (rice_bits k.k2 0) (rice_bits k.k2 s ++ (extra_bits k s e ++ pair_bits k p))
          r in
      let (m2, selector, r2) =
        Reads-split (rice_bits k.k2 s) (extra_bits k s e ++ pair_bits k p) r1 in
      let (m3, extra, pair) = Reads-split (extra_bits k s e) (pair_bits k p) r2 in
      let (x, extra_e, flag_e) = extra_bits-ReadsExtra s e f.2 extra in
      let (a, m4, first, rest) = pair_bits-ReadsPair p f.3 pair in
      ground (
        arith,
        rice-rice_bits k.k2 0 (omega arith) zero_code,
        rice-rice_bits k.k2 s (omega (arith, f.1)) selector,
        flag_of-flag_word s e,
      )
