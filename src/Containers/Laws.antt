-- ===== src/Containers/Laws.antt =====
-- The laws of the sets and maps.
use tcp_socket_chatting_serv.Base.{
  ℕ, ◌≡◌, ◌≢◌, refl, subst, true, false, List, [], ◌∷◌, none, some, All, ◌==◌, if◌then◌else◌, arith,
  Bool-cases, inl, inr, ==_iff,
}
use tcp_socket_chatting_serv.Containers.{
  contains, set_insert, set_erase, lookup, map_insert, map_erase, modify,
}

pub contains-set_insert :
    (j k : ℕ) (xs : List ℕ)
    → contains j (set_insert k xs) ≡ (if j == k then true else contains j xs)
unfolding contains set_insert
contains-set_insert j k [] = ground arith
contains-set_insert j k (x ∷ xs) = ground (arith, contains-set_insert j k xs)

pub contains-set_erase :
    (j k : ℕ) (xs : List ℕ)
    → contains j (set_erase k xs) ≡ (if j == k then false else contains j xs)
unfolding contains set_erase
contains-set_erase j k [] = ground arith
contains-set_erase j k (x ∷ xs) = ground (arith, contains-set_erase j k xs)

pub ne_of_test : (a b : ℕ) → (a == b) ≡ false → a ≢ b
ne_of_test a b h e = ground arith

-- What holds of every element holds of one that is contained.
pub All-contains : (P : ℕ → Type 0) (k : ℕ) (xs : List ℕ) → All P xs → contains k xs ≡ true → P k
unfolding contains
All-contains P k [] a e = ground arith
All-contains P k (x ∷ xs) a e = elim (Bool-cases (k == x)) [
  | inl same ↦ rw ((==_iff k x).0 same) a.0
  | inr other ↦ All-contains P k xs a.1 (rw other at e)
]

pub All-set_insert :
    (P : ℕ → Type 0) (k : ℕ) (xs : List ℕ) → P k → All P xs → All P (set_insert k xs)
unfolding set_insert
All-set_insert P k [] h a = (h, tt)
All-set_insert P k (x ∷ xs) h a = ground (arith, All-set_insert P k xs h)

pub All-set_erase :
    (P : ℕ → Type 0) (k : ℕ) (xs : List ℕ) → All P xs → All (λ x. P x × (k ≢ x)) (set_erase k xs)
unfolding set_erase
All-set_erase P k [] a = tt
All-set_erase P k (x ∷ xs) a = elim (Bool-cases (k == x)) [
  | inl same ↦ rw same (All-set_erase P k xs a.1)
  | inr other ↦ rw other ((a.0, ne_of_test k x other), All-set_erase P k xs a.1)
]

pub All-map {ℓ} :
    {A : Type ℓ} (P Q : A → Type 0) (xs : List A) → ((a : A) → P a → Q a) → All P xs → All Q xs
All-map P Q [] f h = tt
All-map P Q (x ∷ xs) f h = (f x h.0, All-map P Q xs f h.1)

module _ {ℓ} {V : Type ℓ} where
  pub lookup-map_insert :
      (j k : ℕ) (v : V) (m : List (ℕ × V))
      → lookup k m ≡ none
      → lookup j (map_insert k v m) ≡ (if j == k then some v else lookup j m)
  unfolding lookup map_insert
  lookup-map_insert j k v [] e = refl
  lookup-map_insert j k v ((i, w) ∷ m) e = ground (arith, lookup-map_insert j k v m)

  pub lookup-map_erase :
      (j k : ℕ) (m : List (ℕ × V))
      → lookup j (map_erase k m) ≡ (if j == k then none else lookup j m)
  unfolding lookup map_erase
  lookup-map_erase j k [] = ground arith
  lookup-map_erase j k ((i, w) ∷ m) = ground (arith, lookup-map_erase j k m)

  pub lookup-modify_self :
      (k : ℕ) (f : V → V) (v : V) (m : List (ℕ × V))
      → lookup k m ≡ some v
      → lookup k (modify k f m) ≡ some (f v)
  unfolding lookup modify
  lookup-modify_self k f v [] e = cc
  lookup-modify_self k f v ((i, w) ∷ m) e = ground (arith, lookup-modify_self k f v m)

  pub lookup-modify_ne :
      (j k : ℕ) (f : V → V) (m : List (ℕ × V)) → j ≢ k → lookup j (modify k f m) ≡ lookup j m
  unfolding lookup modify
  lookup-modify_ne j k f [] h = refl
  lookup-modify_ne j k f ((i, w) ∷ m) h = ground (arith, lookup-modify_ne j k f m)

  -- What holds of every entry holds of the one that is found.
  pub All-lookup :
      (P : ℕ → V → Type 0) (k : ℕ) (v : V) (m : List (ℕ × V))
      → All (λ (j, w). P j w) m
      → lookup k m ≡ some v
      → P k v
  unfolding lookup
  All-lookup P k v [] a e = cc
  All-lookup P k v ((j, w) ∷ m) a e = elim (Bool-cases (k == j)) [
    | inl same ↦
        let found : some w ≡ some v = rw same at e in
        let value : w ≡ v = ground (arith, found) in
        subst (P k) value (rw ((==_iff k j).0 same) a.0)
    | inr other ↦ All-lookup P k v m a.1 (rw other at e)
  ]

  pub All-map_insert :
      (P : ℕ × V → Type 0) (k : ℕ) (v : V) (m : List (ℕ × V))
      → P (k, v)
      → All P m
      → All P (map_insert k v m)
  unfolding map_insert
  All-map_insert P k v [] h a = (h, tt)
  All-map_insert P k v ((j, w) ∷ m) h a = ground (arith, All-map_insert P k v m h)

  pub All-map_erase :
      (P : ℕ × V → Type 0) (k : ℕ) (m : List (ℕ × V))
      → All P m
      → All (λ e. P e × (k ≢ e.0)) (map_erase k m)
  unfolding map_erase
  All-map_erase P k [] a = tt
  All-map_erase P k ((j, w) ∷ m) a = elim (Bool-cases (k == j)) [
    | inl same ↦ rw same (All-map_erase P k m a.1)
    | inr other ↦ rw other ((a.0, ne_of_test k j other), All-map_erase P k m a.1)
  ]

  -- A change of the value at one key, seen from the entries.
  pub All-modify :
      (P Q : ℕ → V → Type 0) (k : ℕ) (f : V → V) (m : List (ℕ × V))
      → ((v : V) → P k v → Q k (f v))
      → ((j : ℕ) (v : V) → k ≢ j → P j v → Q j v)
      → All (λ (j, v). P j v) m
      → All (λ (j, v). Q j v) (modify k f m)
  unfolding modify
  All-modify P Q k f [] here there a = tt
  All-modify P Q k f ((j, w) ∷ m) here there a = elim (Bool-cases (k == j)) [
    | inl same ↦
        let e = (==_iff k j).0 same in
        rw same (
          subst (λ (i : ℕ). Q i (f w)) e (here w (rw (← e) at a.0)),
          All-modify P Q k f m here there a.1,
        )
    | inr other ↦
        rw other (there j w (ne_of_test k j other) a.0, All-modify P Q k f m here there a.1)
  ]
