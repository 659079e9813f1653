-- ===== src/GuestPc/Preserve.antt =====
-- guest_pc_map.cpp, resolve with a cache: the entries stay right when one is written.
use x87sidecar.Common.{
  get_elem?-set_cases, get_elem?-replicate, ℕ, ◌+◌, ◌%◌, ◌≡◌, refl, sym, subst, false, ◌==◌, List,
  get_elem?, set, some, Bool-cases, Option-cases, inl, inr, arith,
}
use x87sidecar.GuestPc.Reader.{Reader, u64_mod}
use x87sidecar.GuestPc.Cache.{
  Cache, Entry, empty_entry, matches, select, set_of, put, entry_in, clear, ways,
}
use x87sidecar.GuestPc.Select.{place}
use x87sidecar.GuestPc.Coherent.{Coherent, Correct}

-- An unused entry matches nothing.
matches-empty : (pc : ℕ) → matches pc empty_entry ≡ false
unfolding matches
matches-empty pc = refl

module _ (root_offset : ℕ) (reader : Reader) (runtime_base : ℕ) where
  abbrev pub IsCorrect : Entry → Type 0
  IsCorrect e = Correct root_offset reader runtime_base e

  abbrev pub IsCoherent : Cache → Type 0
  IsCoherent c = Coherent root_offset reader runtime_base c

  empty-Correct : IsCorrect empty_entry
  empty-Correct pc m = absurd (cc (m, matches-empty pc))

  pub put-Coherent :
      (s way : ℕ) (e : Entry) (c : Cache) → IsCoherent c → IsCorrect e → IsCoherent (put s way e c)
  put-Coherent s way e c coherent right t j d at = elim (Bool-cases (t == s)) [
    | inl same ↦
        let at' : get_elem? (set (c.sets t) way e) j ≡ some d = rw same at at in
        elim (get_elem?-set_cases (c.sets t) way j e d at') [
          | inl (_, q) ↦ subst (λ x. IsCorrect x) (sym q) right
          | inr old ↦ coherent t j d old
        ]
    | inr other ↦ let at' : get_elem? (c.sets t) j ≡ some d = rw other at at in coherent t j d at'
  ]

  stamped-Correct : (e : Entry) (t : ℕ) → IsCorrect e → IsCorrect (record e { stamp = t })
  unfolding matches
  stamped-Correct e t right pc m = right pc m

  entry_in-Correct :
      (es : List Entry) (way : ℕ)
      → ((e : Entry) → get_elem? es way ≡ some e → IsCorrect e)
      → IsCorrect (entry_in es way)
  entry_in-Correct es way all = elim (Option-cases (get_elem? es way)) [
    | inl none_e ↦ subst (λ x. IsCorrect x) (ground arith) empty-Correct
    | inr (e, some_e) ↦ subst (λ x. IsCorrect x) (ground arith) (all e some_e)
  ]

  pub select-Coherent :
      (pc : ℕ) (c : Cache)
      → IsCoherent c
      → IsCorrect (select pc c).entry × IsCoherent (select pc c).cache
  unfolding select
  select-Coherent pc c coherent =
      let s = set_of pc in
      let way = (place pc c).1 in
      let t = (c.clock + 1) % u64_mod in
      let right : IsCorrect (record (entry_in (c.sets s) way) { stamp = t }) =
        stamped-Correct (entry_in (c.sets s) way) t
          (entry_in-Correct (c.sets s) way (λ e at. coherent s way e at)) in
      (right, put-Coherent s way _ (record c { clock = t }) coherent right)

  -- clear makes every entry right.
  pub clear-Coherent : (c : Cache) → IsCoherent (clear c)
  unfolding clear
  clear-Coherent c s way e at =
      subst (λ x. IsCorrect x) (sym (get_elem?-replicate ways way empty_entry e at)) empty-Correct
