-- ===== src/Common/Slices.antt =====
-- Entries of a list's parts: what take and drop leave of it.
use Prim.Native.Nat.{ℕ, zero, suc, ◌+◌, ◌≤◌, ◌<◌}
use mathlib.Core.Path.{◌≡◌, refl, sym, ap, ◌∙◌}
use mathlib.Core.List.{List, [], ◌∷◌}
use mathlib.Core.Option.{none, some}
use native.Mathlib.Omega.{arith}
use x87sidecar.Common.Lists.{length, get_elem?, take, drop}

module _ {ℓ} {A : Type ℓ} where
  pub get_elem?-take : (n i : ℕ) (xs : List A) → i < n → get_elem? (take n xs) i ≡ get_elem? xs i
  get_elem?-take zero i xs h = elim h [ ]
  get_elem?-take (suc n) i [] h = refl
  get_elem?-take (suc n) zero (x ∷ xs) h = refl
  get_elem?-take (suc n) (suc i) (x ∷ xs) h = get_elem?-take n i xs (omega arith)

  pub get_elem?-take-some :
      (n i : ℕ) (xs : List A) (b : A) → get_elem? (take n xs) i ≡ some b → get_elem? xs i ≡ some b
  get_elem?-take-some zero i xs b h = cc
  get_elem?-take-some (suc n) i [] b h = cc
  get_elem?-take-some (suc n) zero (x ∷ xs) b h = h
  get_elem?-take-some (suc n) (suc i) (x ∷ xs) b h = get_elem?-take-some n i xs b h

  pub get_elem?-drop : (n i : ℕ) (xs : List A) → get_elem? (drop n xs) i ≡ get_elem? xs (n + i)
  get_elem?-drop zero i xs = ap (get_elem? xs) (omega arith)
  get_elem?-drop (suc n) i [] = refl
  get_elem?-drop (suc n) i (x ∷ xs) =
      let e : suc (n + i) ≡ suc n + i = omega arith in
      get_elem?-drop n i xs ∙ ap (get_elem? (x ∷ xs)) e

  pub length-take-drop :
      (n k : ℕ) (xs : List A) → k + n ≤ length xs → length (take n (drop k xs)) ≡ n
  length-take-drop zero k xs h = refl
  length-take-drop (suc n) zero [] h = absurd (omega arith)
  length-take-drop (suc n) zero (x ∷ xs) h = ap suc (length-take-drop n zero xs (omega arith))
  length-take-drop (suc n) (suc k) [] h = absurd (omega arith)
  length-take-drop (suc n) (suc k) (x ∷ xs) h = length-take-drop (suc n) k xs (omega arith)

  pub get_elem?-some : (xs : List A) (i : ℕ) → i < length xs → (b : A) × (get_elem? xs i ≡ some b)
  get_elem?-some [] i h = elim h [ ]
  get_elem?-some (x ∷ xs) zero h = (x, refl)
  get_elem?-some (x ∷ xs) (suc i) h = get_elem?-some xs i (omega arith)

  pub get_elem?-none : (xs : List A) (i : ℕ) → length xs ≤ i → get_elem? xs i ≡ none
  get_elem?-none [] i h = refl
  get_elem?-none (x ∷ xs) zero h = absurd (omega arith)
  get_elem?-none (x ∷ xs) (suc i) h = get_elem?-none xs i (omega arith)

  pub take-drop-take :
      (n idx m : ℕ) (xs : List A)
      → idx + n ≤ m
      → take n (drop idx (take m xs)) ≡ take n (drop idx xs)
  take-drop-take zero idx m xs h = refl
  take-drop-take (suc n) zero zero xs h = absurd (omega arith)
  take-drop-take (suc n) zero (suc m) [] h = refl
  take-drop-take (suc n) zero (suc m) (x ∷ xs) h =
      ap (λ (t : List A). x ∷ t) (take-drop-take n zero m xs (omega arith))
  take-drop-take (suc n) (suc idx) zero xs h = absurd (omega arith)
  take-drop-take (suc n) (suc idx) (suc m) [] h = refl
  take-drop-take (suc n) (suc idx) (suc m) (x ∷ xs) h =
      take-drop-take (suc n) idx m xs (omega arith)

  pub drop-nil : (k : ℕ) → drop {A = A} k [] ≡ []
  drop-nil zero = refl
  drop-nil (suc k) = refl

  pub drop-drop : (a b : ℕ) (xs : List A) → drop a (drop b xs) ≡ drop (b + a) xs
  drop-drop a zero xs = ap (λ (k : ℕ). drop k xs) (omega arith)
  drop-drop a (suc b) [] = drop-nil a ∙ sym (drop-nil (suc b + a))
  drop-drop a (suc b) (x ∷ xs) =
      let e : suc (b + a) ≡ suc b + a = omega arith in
      drop-drop a b xs ∙ ap (λ (k : ℕ). drop k (x ∷ xs)) e
