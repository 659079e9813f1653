-- ===== src/GuestPc/TreeCache.antt =====
-- guest_pc_map.cpp: a search tree in the process gives the cache what it relies on.
use x87sidecar.Common.{
  ℕ, ◌+◌, ◌%◌, ◌<◌, ◌≡◌, refl, ap, sym, subst, ◌∙◌, true, List, some, inl, inr, arith,
}
use x87sidecar.GuestPc.Reader.{
  Reader, u64_mod, little_endian, Status, resolved, not_translated, unavailable,
}
use x87sidecar.GuestPc.Tree.{Fragment, contains, lookup_fragment, max_tree_depth}
use x87sidecar.GuestPc.TreeLaws.{
  Tree, leaf, branch, height, Holds, Ordered, In, InInterval, Plausible, Answers,
  lookup_fragment-Answers,
}
use x87sidecar.GuestPc.Resolve.{Resolution}
use x87sidecar.GuestPc.Cache.{Cache, clear}
use x87sidecar.GuestPc.Invariant.{Intervals}
use x87sidecar.GuestPc.Sequence.{serve_all, resolve_all, NoGaps, serve_all-resolve_all}

In-Plausible :
    (reader : Reader) (t : Tree) (addr : ℕ) (f : Fragment)
    → Holds reader t addr
    → In f t
    → Plausible f
In-Plausible reader leaf addr f held m = elim m [ ]
In-Plausible reader (branch l g r) addr f (_, _, _, _, fits, _, _) (inl e) =
    subst (λ x. Plausible x) (sym e) fits
In-Plausible reader (branch l g r) addr f (_, _, _, _, _, left, _) (inr (inl m)) =
    In-Plausible reader l _ f left m
In-Plausible reader (branch l g r) addr f (_, _, _, _, _, _, right) (inr (inr m)) =
    In-Plausible reader r _ f right m

-- Two fragments of a search tree with a common pc are the same.
In-unique :
    (pc : ℕ) (t : Tree) (f g : Fragment)
    → Ordered t
    → In f t
    → In g t
    → InInterval pc f
    → InInterval pc g
    → f ≡ g
In-unique pc leaf f g ord m n i j = elim m [ ]
In-unique pc (branch l h r) f g ord (inl e) (inl e') i j = e ∙ sym e'
In-unique pc (branch l h r) f g (before, behind, _, _) (inl e) (inr (inl n)) i j =
    let i' : InInterval pc h = subst (λ x. InInterval pc x) e i in
    absurd (omega (arith, i'.0, j.1, before g n))
In-unique pc (branch l h r) f g (before, behind, _, _) (inl e) (inr (inr n)) i j =
    let i' : InInterval pc h = subst (λ x. InInterval pc x) e i in
    absurd (omega (arith, i'.1, j.0, behind g n))
In-unique pc (branch l h r) f g (before, behind, _, _) (inr (inl m)) (inl e') i j =
    let j' : InInterval pc h = subst (λ x. InInterval pc x) e' j in
    absurd (omega (arith, j'.0, i.1, before f m))
In-unique pc (branch l h r) f g (before, behind, _, _) (inr (inr m)) (inl e') i j =
    let j' : InInterval pc h = subst (λ x. InInterval pc x) e' j in
    absurd (omega (arith, j'.1, i.0, behind f m))
In-unique pc (branch l h r) f g (_, _, ord, _) (inr (inl m)) (inr (inl n)) i j =
    In-unique pc l f g ord m n i j
In-unique pc (branch l h r) f g (_, _, _, ord) (inr (inr m)) (inr (inr n)) i j =
    In-unique pc r f g ord m n i j
In-unique pc (branch l h r) f g (before, behind, _, _) (inr (inl m)) (inr (inr n)) i j =
    absurd (omega (arith, i.1, j.0, before f m, behind g n))
In-unique pc (branch l h r) f g (before, behind, _, _) (inr (inr m)) (inr (inl n)) i j =
    absurd (omega (arith, i.0, j.1, before g n, behind f m))

contains-InInterval : (f : Fragment) (pc : ℕ) → Plausible f → contains f pc ≡ true → InInterval pc f
unfolding contains
contains-InInterval f pc fits c = ground arith

-- The process holds a search tree of fewer than 4096 levels at the root slot.
abbrev pub HoldsTree : ℕ → Reader → ℕ → Tree → Type 0
HoldsTree root_offset reader runtime_base t =
    (root : List ℕ) × (0 < root_offset)
    × (reader ((runtime_base + root_offset) % u64_mod) 8 ≡ some root)
    × Holds reader t (little_endian 8 root)
    × Ordered t
    × (height t < max_tree_depth)

module _ (root_offset : ℕ) (reader : Reader) (runtime_base : ℕ) (t : Tree)
    (held : HoldsTree root_offset reader runtime_base t) where
  answers :
      (pc : ℕ) (r : Status Fragment)
      → lookup_fragment root_offset reader runtime_base pc ≡ r
      → Answers t pc r
  answers pc r e =
      subst (λ s. Answers t pc s) e
        (lookup_fragment-Answers reader pc t root_offset runtime_base held.0 held.1 held.2 held.3
          held.4 held.5)

  HoldsTree-Intervals : Intervals root_offset reader runtime_base
  HoldsTree-Intervals pc pc' f found inside =
      let (m, _) = answers pc (resolved f) found in
      let i = contains-InInterval f pc' (In-Plausible reader t _ f held.3 m) inside in
      again m i (lookup_fragment root_offset reader runtime_base pc') refl
    where
      again :
          In f t
          → InInterval pc' f
          → (r : Status Fragment) → lookup_fragment root_offset reader runtime_base pc' ≡ r
          → lookup_fragment root_offset reader runtime_base pc' ≡ resolved f
      again m i (resolved g) e =
          let (n, j) = answers pc' (resolved g) e in
          e ∙ ap resolved (In-unique pc' t g f held.4 n m j i)
      again m i not_translated e = absurd (answers pc' not_translated e f m i)
      again m i unavailable e = absurd (answers pc' unavailable e)

  -- On a process that keeps holding one search tree of fewer than 4096 levels, any sequence of calls
  -- with a cleared cache has the outcomes of the calls without a cache, where no pc of the sequence is
  -- before the first boundary of a translated fragment.
  pub serve_all_held :
      (out : Resolution) (pcs : List ℕ) (cache : Cache)
      → NoGaps root_offset reader runtime_base pcs
      → serve_all root_offset reader runtime_base out pcs (clear cache)
        ≡ resolve_all root_offset reader runtime_base out pcs
  serve_all_held out pcs cache gaps =
      serve_all-resolve_all root_offset reader runtime_base out pcs cache HoldsTree-Intervals gaps
