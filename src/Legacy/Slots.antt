-- ===== src/Legacy/Slots.antt =====
-- A vector whose entries are assigned to, and sets of indices into it.
use tcp_socket_chatting_serv.Base.{
  ℕ, zero, suc, ◌+◌, ◌<◌, ◌≤◌, ◌≡◌, ◌≢◌, refl, ap, false, List, [], ◌∷◌, ◌++◌, some, All, length,
  get_elem?, arith,
}
use tcp_socket_chatting_serv.Containers.{contains}

-- The indices from `lo` on, `n` of them.
unfoldable pub range : ℕ → ℕ → List ℕ
range lo zero = []
range lo (suc n) = lo ∷ range (suc lo) n

-- No index stands in the list twice.
abbrev pub Distinct : List ℕ → Type 0
Distinct [] = Unit {0}
Distinct (x ∷ xs) = (contains x xs ≡ false) × Distinct xs

module _ {ℓ} {A : Type ℓ} where
  -- An entry assigned to.
  unfoldable pub set_at : ℕ → A → List A → List A
  set_at i v [] = []
  set_at zero v (x ∷ xs) = v ∷ xs
  set_at (suc i) v (x ∷ xs) = x ∷ set_at i v xs

  pub length-set_at : (i : ℕ) (v : A) (xs : List A) → length (set_at i v xs) ≡ length xs
  unfolding set_at
  length-set_at i v [] = refl
  length-set_at zero v (x ∷ xs) = refl
  length-set_at (suc i) v (x ∷ xs) = ap suc (length-set_at i v xs)

  pub get_elem?-set_at :
      (i : ℕ) (u v : A) (xs : List A)
      → get_elem? xs i ≡ some u
      → get_elem? (set_at i v xs) i ≡ some v
  unfolding set_at
  get_elem?-set_at i u v [] h = cc
  get_elem?-set_at zero u v (x ∷ xs) h = refl
  get_elem?-set_at (suc i) u v (x ∷ xs) h = get_elem?-set_at i u v xs h

  pub get_elem?-set_at_ne :
      (i j : ℕ) (v : A) (xs : List A) → i ≢ j → get_elem? (set_at i v xs) j ≡ get_elem? xs j
  unfolding set_at
  get_elem?-set_at_ne i j v [] h = refl
  get_elem?-set_at_ne zero zero v (x ∷ xs) h = absurd (h refl)
  get_elem?-set_at_ne zero (suc j) v (x ∷ xs) h = refl
  get_elem?-set_at_ne (suc i) zero v (x ∷ xs) h = refl
  get_elem?-set_at_ne (suc i) (suc j) v (x ∷ xs) h =
      get_elem?-set_at_ne i j v xs (λ e. h (ap suc e))

  pub get_elem?-append :
      (xs ys : List A) (i : ℕ) (u : A) → get_elem? xs i ≡ some u → get_elem? (xs ++ ys) i ≡ some u
  get_elem?-append [] ys i u h = cc
  get_elem?-append (x ∷ xs) ys zero u h = h
  get_elem?-append (x ∷ xs) ys (suc i) u h = get_elem?-append xs ys i u h

  pub get_elem?-lt : (xs : List A) (i : ℕ) (u : A) → get_elem? xs i ≡ some u → i < length xs
  get_elem?-lt [] i u h = cc
  get_elem?-lt (x ∷ xs) zero u h = omega arith
  get_elem?-lt (x ∷ xs) (suc i) u h = omega (arith, get_elem?-lt xs i u h)

pub length-range : (lo n : ℕ) → length (range lo n) ≡ n
unfolding range
length-range lo zero = refl
length-range lo (suc n) = ap suc (length-range (suc lo) n)

contains-range : (x lo n : ℕ) → x < lo → contains x (range lo n) ≡ false
unfolding contains range
contains-range x lo zero h = refl
contains-range x lo (suc n) h = ground (arith, contains-range x (suc lo) n (omega arith))

pub Distinct-range : (lo n : ℕ) → Distinct (range lo n)
unfolding range
Distinct-range lo zero = tt
Distinct-range lo (suc n) = (contains-range lo (suc lo) n (omega arith), Distinct-range (suc lo) n)

contains-append :
    (x : ℕ) (xs ys : List ℕ)
    → contains x xs ≡ false
    → contains x ys ≡ false
    → contains x (xs ++ ys) ≡ false
unfolding contains
contains-append x [] ys left right = right
contains-append x (y ∷ xs) ys left right = ground (arith, contains-append x xs ys)

pub Distinct-append_range :
    (xs : List ℕ) (lo n : ℕ) → Distinct xs → All (λ x. x < lo) xs → Distinct (xs ++ range lo n)
Distinct-append_range [] lo n d below = Distinct-range lo n
Distinct-append_range (x ∷ xs) lo n (fresh, d) (lt, below) = (
  contains-append x xs (range lo n) fresh (contains-range x lo n lt),
  Distinct-append_range xs lo n d below,
)

pub Distinct-append_one :
    (xs : List ℕ) (x : ℕ) → Distinct xs → All (λ y. y ≢ x) xs → Distinct (xs ++ x ∷ [])
unfolding contains
Distinct-append_one [] x d other = (refl, tt)
Distinct-append_one (y ∷ xs) x (fresh, d) (ne, other) =
    (contains-append y xs (x ∷ []) fresh (ground arith), Distinct-append_one xs x d other)

-- What holds of the indices of new entries.
pub All-range :
    (P : ℕ → Type 0) (lo n : ℕ) → ((i : ℕ) → lo ≤ i → i < lo + n → P i) → All P (range lo n)
unfolding range
All-range P lo zero f = tt
All-range P lo (suc n) f = (
  f lo (omega arith) (omega arith),
  All-range P (suc lo) n (λ i l h. f i (omega arith) (omega arith)),
)

pub All-contains-false : (i : ℕ) (xs : List ℕ) → contains i xs ≡ false → All (λ j. i ≢ j) xs
unfolding contains
All-contains-false i [] h = tt
All-contains-false i (x ∷ xs) h = (ground arith, All-contains-false i xs (ground arith))
