-- ===== src/GuestPc/Windows.antt =====
-- guest_pc_map.cpp, BitReader: reading through windows gives what reading the stream in memory gives.
use x87sidecar.Common.{
  get_elem?-take, get_elem?-take-some, get_elem?-drop, get_elem?-some, get_elem?-none, ℕ, zero, suc,
  ◌+◌, ◌-◌, ◌*◌, ◌/◌, ◌%◌, ◌^◌, ◌≤◌, ◌<◌, ◌≡◌, refl, sym, ap, subst, ◌∙◌, true, false, ltb, ltb→lt,
  ◌==◌, if◌then◌else◌, List, length, get_elem?, take, drop, Option, none, some, Bool-cases, inl,
  inr, arith,
}
use x87sidecar.GuestPc.Reader.{Reader, u64_mod}
use x87sidecar.GuestPc.Bits.{
  memory, remote, BitReader, byte_at, read_bit, read_value, raw32, prefix, prefix_fuel, rice,
  with_low_bits, advance, windowed, in_window, bit_of, min_of, stream_window,
}

-- The process holds the bytes at an address.
abbrev pub Serves : Reader → ℕ → List ℕ → Type 0
Serves reader addr bytes =
    (idx n : ℕ)
    → idx + n ≤ length bytes
    → reader ((addr + idx) % u64_mod) n ≡ some (take n (drop idx bytes))

module _ (bytes : List ℕ) where
  -- The two readers stand at one bit, and the window holds bytes of the stream.
  pub record Alike (br br' : BitReader) : Type 0 where
    pub positions : br.pos ≡ br'.pos
    pub bits : br.bit ≡ br'.bit
    pub window :
        (i b : ℕ) → get_elem? br'.win i ≡ some b → get_elem? bytes (br'.win_start + i) ≡ some b

  -- Two decoders give the same from readers that are alike.
  abbrev pub Same : {A : Type 0} → Option (A × BitReader) → Option (A × BitReader) → Type 0
  Same none none = Unit {0}
  Same none (some q) = ⊥
  Same (some p) none = ⊥
  Same (some p) (some q) = (p.0 ≡ q.0) × Alike p.1 q.1

  abbrev pub bind :
      {A B : Type 0}
      → Option (A × BitReader)
      → (A → BitReader → Option (B × BitReader))
      → Option (B × BitReader)
  bind o f = elim o [ none ↦ none | some (a, x) ↦ f a x ]

  pub bind-Same :
      {A B : Type 0} (o o' : Option (A × BitReader)) (f g : A → BitReader → Option (B × BitReader))
      → Same o o'
      → ((a : A) (x x' : BitReader) → Alike x x' → Same (f a x) (g a x'))
      → Same (bind o f) (bind o' g)
  bind-Same none none f g h k = tt
  bind-Same none (some p) f g h k = absurd h
  bind-Same (some p) none f g h k = absurd h
  bind-Same (some (a, x)) (some (a', x')) f g (e, h) k =
      subst (λ c. Same (f a x) (g c x')) e (k a x x' h)

  advance-Alike : (br br' : BitReader) → Alike br br' → Alike (advance br) (advance br')
  advance-Alike br br' alike = elim (Bool-cases (br.bit + 1 == 8)) [
    | inl e ↦
        let e' = subst (λ t. (t + 1 == 8) ≡ true) alike.bits e in
        rw (e, e')
          (record {
            positions = ap (λ (p : ℕ). p + 1) alike.positions;
            bits = refl;
            window = alike.window;
          })
    | inr e ↦
        let e' = subst (λ t. (t + 1 == 8) ≡ false) alike.bits e in
        rw (e, e')
          (record {
            positions = alike.positions;
            bits = ap (λ (p : ℕ). p + 1) alike.bits;
            window = alike.window;
          })
  ]

  bit_of-Same : (o o' : Option (ℕ × BitReader)) → Same o o' → Same (bit_of o) (bit_of o')
  bit_of-Same none none h = tt
  bit_of-Same none (some p) h = absurd h
  bit_of-Same (some p) none h = absurd h
  bit_of-Same (some (b, x)) (some (b', x')) (e, h) = let same = h.bits in (cc, advance-Alike x x' h)

  module _ (reader : Reader) (addr : ℕ) (serves : Serves reader addr bytes) where
    -- The window read at an index.
    abbrev window_at : ℕ → List ℕ
    window_at idx = take (min_of (length bytes - idx) stream_window) (drop idx bytes)

    window_at-first :
        (idx b : ℕ)
        → idx < length bytes
        → get_elem? bytes idx ≡ some b
        → get_elem? (window_at idx) (idx - idx) ≡ some b
    window_at-first idx b lt at =
        let n = min_of (length bytes - idx) stream_window in
        let z : idx - idx ≡ 0 = omega arith in
        let z' : idx + 0 ≡ idx = omega arith in
        rw z (
          get_elem?-take n 0 (drop idx bytes) (ground arith)
          ∙ get_elem?-drop idx 0 bytes
          ∙ rw z' at)

    window_at-holds :
        (idx i b : ℕ) → get_elem? (window_at idx) i ≡ some b → get_elem? bytes (idx + i) ≡ some b
    window_at-holds idx i b e =
        let n = min_of (length bytes - idx) stream_window in
        sym (get_elem?-drop idx i bytes) ∙ get_elem?-take-some n i (drop idx bytes) b e

    -- What a window brings in.
    refilled :
        (idx : ℕ) (br : BitReader)
        → idx < length bytes
        → in_window idx br ≡ false
        → windowed reader addr (length bytes) idx br
          ≡ some (record br { win_start = idx; win = window_at idx })
    refilled idx br lt outside =
        let n = min_of (length bytes - idx) stream_window in
        let fits : idx + n ≤ length bytes = ground arith in rw (outside, serves idx n fits)

    byte_at-Same :
        (idx : ℕ) (br br' : BitReader)
        → Alike br br'
        → Same (byte_at (memory bytes) idx br) (byte_at (remote reader addr (length bytes)) idx br')
    unfolding byte_at
    byte_at-Same idx br br' alike = elim (Bool-cases (ltb idx (length bytes))) [
      | inr past ↦ rw (past, get_elem?-none bytes idx (ground arith)) tt
      | inl lt ↦
          let (b, at) = get_elem?-some bytes idx (ltb→lt idx (length bytes) lt) in
          elim (Bool-cases (in_window idx br')) [
            | inl inside ↦
                let (c, at') = get_elem?-some br'.win (idx - br'.win_start) (ground arith) in
                let same = alike.window (idx - br'.win_start) c at' in
                let here : br'.win_start + (idx - br'.win_start) ≡ idx = ground arith in
                rw (lt, at, inside, at') (cc (same, here), alike)
            | inr outside ↦
                let fresh = refilled idx br' (ltb→lt idx (length bytes) lt) outside in
                let first = window_at-first idx b (ltb→lt idx (length bytes) lt) at in
                rw (lt, at, fresh, first)
                  (
                    refl,
                    record {
                      positions = alike.positions;
                      bits = alike.bits;
                      window = λ i c e. window_at-holds idx i c e;
                    },
                  )
          ]
    ]

    read_bit-Same :
        (br br' : BitReader)
        → Alike br br'
        → Same (read_bit (memory bytes) br) (read_bit (remote reader addr (length bytes)) br')
    unfolding read_bit
    read_bit-Same br br' alike = bit_of-Same _ _ (
        subst
          (λ p.
            Same (byte_at (memory bytes) br.pos br)
              (byte_at (remote reader addr (length bytes)) p br'))
          alike.positions (byte_at-Same br.pos br br' alike))

    read_value-Same :
        (n i v : ℕ) (br br' : BitReader)
        → Alike br br'
        → Same
            (read_value (memory bytes) n i v br)
            (read_value (remote reader addr (length bytes)) n i v br')
    unfolding read_value
    read_value-Same zero i v br br' alike = (refl, alike)
    read_value-Same (suc n) i v br br' alike =
        bind-Same _ _ (λ b x. read_value (memory bytes) n (suc i) (v + b * 2 ^ i) x)
          (λ b x. read_value (remote reader addr (length bytes)) n (suc i) (v + b * 2 ^ i) x)
          (read_bit-Same br br' alike)
          (λ b x x' h. read_value-Same n (suc i) (v + b * 2 ^ i) x x' h)

    prefix-Same :
        (fuel k q : ℕ) (br br' : BitReader)
        → Alike br br'
        → Same
            (prefix fuel (memory bytes) k q br)
            (prefix fuel (remote reader addr (length bytes)) k q br')
    unfolding prefix
    prefix-Same zero k q br br' alike = tt
    prefix-Same (suc fuel) k q br br' alike =
        bind-Same _ _ _ _ (read_bit-Same br br' alike)
          (λ b x x' h. after b x x' h (prefix-Same fuel k (suc q) x x' h))
      where
        after :
            (b : ℕ) (x x' : BitReader)
            → Alike x x'
            → Same
                (prefix fuel (memory bytes) k (suc q) x)
                (prefix fuel (remote reader addr (length bytes)) k (suc q) x')
            → Same
                (if b == 0
                  then some (q, x)
                  else if ltb (0xffffffff / 2 ^ k) (suc q)
                  then none
                  else prefix fuel (memory bytes) k (suc q) x)
                (if b == 0
                  then some (q, x')
                  else if ltb (0xffffffff / 2 ^ k) (suc q)
                  then none
                  else prefix fuel (remote reader addr (length bytes)) k (suc q) x')
        after b x x' h more = elim (Bool-cases (b == 0)) [
          | inl z ↦ rw z (refl, h)
          | inr one ↦ elim (Bool-cases (ltb (0xffffffff / 2 ^ k) (suc q))) [
            | inl big ↦ rw (one, big) tt
            | inr fits ↦ rw (one, fits) more
          ]
        ]

    pub rice-Same :
        (k : ℕ) (br br' : BitReader)
        → Alike br br'
        → Same (rice k (memory bytes) br) (rice k (remote reader addr (length bytes)) br')
    unfolding rice
    rice-Same k br br' alike = low_bits-Same k _ _ (prefix-Same (prefix_fuel k) k 0 br br' alike)
      where
        low_bits-Same :
            (k : ℕ) (o o' : Option (ℕ × BitReader))
            → Same o o'
            → Same
                (with_low_bits (memory bytes) k o)
                (with_low_bits (remote reader addr (length bytes)) k o')
        low_bits-Same k none none h = tt
        low_bits-Same k (some p) none h = absurd h
        low_bits-Same k none (some p) h = absurd h
        low_bits-Same k (some (q, x)) (some (q', x')) (e, h) =
            rw e (read_value-Same k 0 (q' * 2 ^ k) x x' h)

    pub raw32-Same :
        (br br' : BitReader)
        → Alike br br'
        → Same (raw32 (memory bytes) br) (raw32 (remote reader addr (length bytes)) br')
    unfolding raw32
    raw32-Same br br' alike = read_value-Same 32 0 0 br br' alike
