-- ===== src/Containers.antt =====
-- `std::set` and `std::map` as the server uses them: keys and pointers are numbers, and the entries
-- stand in ascending order of key.
pub mod Laws
use tcp_socket_chatting_serv.Base.{
  ℕ, Bool, true, false, ◌||◌, List, [], ◌∷◌, Option, none, some, ltb, ◌==◌, if◌then◌else◌,
}

-- Membership, `insert` and `erase` of a set.
unfoldable pub contains : ℕ → List ℕ → Bool
contains k [] = false
contains k (x ∷ xs) = (k == x) || contains k xs

unfoldable pub set_insert : ℕ → List ℕ → List ℕ
set_insert k [] = k ∷ []
set_insert k (x ∷ xs) =
    let rest = set_insert k xs in
    if k == x then x ∷ xs else if ltb k x then k ∷ x ∷ xs else x ∷ rest

unfoldable pub set_erase : ℕ → List ℕ → List ℕ
set_erase k [] = []
set_erase k (x ∷ xs) = let rest = set_erase k xs in if k == x then rest else x ∷ rest

module _ {ℓ} {V : Type ℓ} where
  -- `find` of a map.
  unfoldable pub lookup : ℕ → List (ℕ × V) → Option V
  lookup k [] = none
  lookup k ((j, v) ∷ m) = let rest = lookup k m in if k == j then some v else rest

  -- `insert` of a map: an entry with that key stays as it is.
  unfoldable pub map_insert : ℕ → V → List (ℕ × V) → List (ℕ × V)
  map_insert k v [] = (k, v) ∷ []
  map_insert k v ((j, w) ∷ m) =
      let rest = map_insert k v m in
      if k == j then (j, w) ∷ m else if ltb k j then (k, v) ∷ (j, w) ∷ m else (j, w) ∷ rest

  -- `operator[]` of a map, assigned to.
  unfoldable pub map_set : ℕ → V → List (ℕ × V) → List (ℕ × V)
  map_set k v [] = (k, v) ∷ []
  map_set k v ((j, w) ∷ m) =
      let rest = map_set k v m in
      if k == j then (j, v) ∷ m else if ltb k j then (k, v) ∷ (j, w) ∷ m else (j, w) ∷ rest

  -- `erase` of a map.
  unfoldable pub map_erase : ℕ → List (ℕ × V) → List (ℕ × V)
  map_erase k [] = []
  map_erase k ((j, v) ∷ m) = let rest = map_erase k m in if k == j then rest else (j, v) ∷ rest

  -- The map once the value that a key maps to was changed through a pointer to it.
  unfoldable pub modify : ℕ → (V → V) → List (ℕ × V) → List (ℕ × V)
  modify k f [] = []
  modify k f ((j, v) ∷ m) = (j, if k == j then f v else v) ∷ modify k f m
