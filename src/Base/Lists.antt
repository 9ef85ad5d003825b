-- ===== src/Base/Lists.antt =====
-- Lists measured by native numbers, and predicates on their entries.
use Prim.Native.Nat.{ℕ, zero, suc, ◌+◌, ◌-◌, ◌≤◌, ◌<◌}
use mathlib.Core.Option.{Option, none, some}
use mathlib.Core.Path.{◌≡◌, refl, ap}
use mathlib.Core.List.{List, [], ◌∷◌, ◌++◌}
use native.Mathlib.Omega.{arith}
use native.Mathlib.Nat.{zero-add}

unroll : (n k : ℕ) → suc n + k ≡ suc (n + k)
unroll n k = omega arith

module _ {ℓ} {A : Type ℓ} where
  abbrev pub length : List A → ℕ
  length [] = 0
  length (x ∷ xs) = suc (length xs)

  abbrev pub take : ℕ → List A → List A
  take zero xs = []
  take (suc n) [] = []
  take (suc n) (x ∷ xs) = x ∷ take n xs

  abbrev pub drop : ℕ → List A → List A
  drop zero xs = xs
  drop (suc n) [] = []
  drop (suc n) (x ∷ xs) = drop n xs

  abbrev pub All {κ} : (A → Type κ) → List A → Type κ
  All P [] = Unit {κ}
  All P (x ∷ xs) = P x × All P xs

  abbrev pub get_elem? : List A → ℕ → Option A
  get_elem? [] i = none
  get_elem? (x ∷ xs) zero = some x
  get_elem? (x ∷ xs) (suc i) = get_elem? xs i

  -- `std::array::fill`.
  unfoldable pub fill : ℕ → A → List A
  fill zero a = []
  fill (suc n) a = a ∷ fill n a

  pub length-append : (xs ys : List A) → length (xs ++ ys) ≡ length xs + length ys
  length-append [] ys = omega arith
  length-append (x ∷ xs) ys = omega (arith, length-append xs ys)

  pub length-fill : (n : ℕ) (a : A) → length (fill n a) ≡ n
  unfolding fill
  length-fill zero a = refl
  length-fill (suc n) a = ap suc (length-fill n a)

  pub length-drop : (n : ℕ) (xs : List A) → length (drop n xs) ≡ length xs - n
  length-drop zero xs = omega arith
  length-drop (suc n) [] = omega arith
  length-drop (suc n) (x ∷ xs) = omega (arith, length-drop n xs)

  pub length-take : (n : ℕ) (xs : List A) → n ≤ length xs → length (take n xs) ≡ n
  length-take zero xs h = refl
  length-take (suc n) [] h = absurd (omega arith)
  length-take (suc n) (x ∷ xs) h = omega (arith, length-take n xs (omega arith))

  pub take-append_length : (xs ys : List A) → take (length xs) (xs ++ ys) ≡ xs
  take-append_length [] ys = refl
  take-append_length (x ∷ xs) ys = ap (◌∷◌ x) (take-append_length xs ys)

  -- Taking more than the first of two lists.
  pub take_past : (k : ℕ) (xs ys : List A) → take (length xs + k) (xs ++ ys) ≡ xs ++ take k ys
  take_past k [] ys = rw zero-add
  take_past k (x ∷ xs) ys = rw (unroll (length xs) k) (ap (◌∷◌ x) (take_past k xs ys))

  pub take-fill : (k n : ℕ) (a : A) → k ≤ n → take k (fill n a) ≡ fill k a
  unfolding fill
  take-fill zero n a h = refl
  take-fill (suc k) zero a h = absurd (omega arith)
  take-fill (suc k) (suc n) a h = ap (◌∷◌ a) (take-fill k n a (omega arith))

  pub get_elem?-drop : (j k : ℕ) (xs : List A) → get_elem? (drop j xs) k ≡ get_elem? xs (j + k)
  get_elem?-drop zero k xs = rw zero-add
  get_elem?-drop (suc j) k [] = refl
  get_elem?-drop (suc j) k (x ∷ xs) = rw (unroll j k) (get_elem?-drop j k xs)

  pub get_elem?-append_fill :
      (xs : List A) (n i : ℕ) (a : A)
      → length xs ≤ i
      → i < length xs + n
      → get_elem? (xs ++ fill n a) i ≡ some a
  unfolding fill
  get_elem?-append_fill [] zero i a lo hi = absurd (omega arith)
  get_elem?-append_fill [] (suc n) zero a lo hi = refl
  get_elem?-append_fill [] (suc n) (suc i) a lo hi =
      get_elem?-append_fill [] n i a (omega arith) (omega arith)
  get_elem?-append_fill (x ∷ xs) n zero a lo hi = absurd (omega arith)
  get_elem?-append_fill (x ∷ xs) n (suc i) a lo hi =
      get_elem?-append_fill xs n i a (omega arith) (omega arith)

  pub take-length : (xs : List A) → take (length xs) xs ≡ xs
  take-length [] = refl
  take-length (x ∷ xs) = ap (◌∷◌ x) (take-length xs)

  pub take-front : (k : ℕ) (xs ys : List A) → k ≤ length xs → take k (xs ++ ys) ≡ take k xs
  take-front zero xs ys h = refl
  take-front (suc k) [] ys h = absurd (omega arith)
  take-front (suc k) (x ∷ xs) ys h = ap (◌∷◌ x) (take-front k xs ys (omega arith))

  pub take-take_append :
      (k n : ℕ) (xs ys : List A) → k ≤ n → n ≤ length xs → take k (take n xs ++ ys) ≡ take k xs
  take-take_append zero n xs ys h l = refl
  take-take_append (suc k) zero xs ys h l = absurd (omega arith)
  take-take_append (suc k) (suc n) [] ys h l = absurd (omega arith)
  take-take_append (suc k) (suc n) (x ∷ xs) ys h l =
      ap (◌∷◌ x) (take-take_append k n xs ys (omega arith) (omega arith))

  pub drop-append_length : (xs ys : List A) → drop (length xs) (xs ++ ys) ≡ ys
  drop-append_length [] ys = refl
  drop-append_length (x ∷ xs) ys = drop-append_length xs ys

  -- What is left after `a`, where `a ++ b` is left after `n` entries.
  pub drop_advance : (n : ℕ) (xs a b : List A) → drop n xs ≡ a ++ b → drop (n + length a) xs ≡ b
  drop_advance zero xs a b e = rw (zero-add, e) (drop-append_length a b)
  drop_advance (suc n) [] [] b e = rw (unroll n 0) e
  drop_advance (suc n) [] (y ∷ a) b e = cc
  drop_advance (suc n) (x ∷ xs) a b e = rw (unroll n (length a)) (drop_advance n xs a b e)

  pub All-take {κ} : (P : A → Type κ) (n : ℕ) (xs : List A) → All P xs → All P (take n xs)
  All-take P zero xs h = tt
  All-take P (suc n) [] h = tt
  All-take P (suc n) (x ∷ xs) (this, h) = (this, All-take P n xs h)

  pub All-append {κ} : (P : A → Type κ) (xs ys : List A) → All P xs → All P ys → All P (xs ++ ys)
  All-append P [] ys left right = right
  All-append P (x ∷ xs) ys (first, left) right = (first, All-append P xs ys left right)
