-- ===== src/Client/Commands/Search.antt =====
-- The searches in a line of ChattingServer_v1.1/ChattingClient/RoomDisplay.h, `find` and the prefixes.
use tcp_socket_chatting_serv.Base.{
  ℕ, suc, ◌≡◌, refl, ap, inl, inr, true, List, [], ◌∷◌, ◌++◌, none, some, length, take, drop, ◌==◌,
  Bool-cases, Option-cases, ==_iff, arith,
}
use tcp_socket_chatting_serv.Client.Commands.{starts_with, find}

pub starts_with-split :
    (prefix text : List ℕ)
    → starts_with prefix text ≡ true
    → text ≡ prefix ++ drop (length prefix) text
unfolding starts_with
starts_with-split [] text h = refl
starts_with-split (c ∷ cs) [] h = cc
starts_with-split (c ∷ cs) (x ∷ xs) h = ground (arith, starts_with-split cs xs)

pub find-split :
    (c : ℕ) (text : List ℕ) (i : ℕ)
    → find c text ≡ some i
    → text ≡ take i text ++ c ∷ drop (suc i) text
unfolding find
find-split c [] i h = cc
find-split c (x ∷ xs) i h = elim (Bool-cases (c == x)) [
  | inl hit ↦
      let at : 0 ≡ i = ground arith in let same : c ≡ x = (==_iff c x).0 hit in rw (← at, same)
  | inr miss ↦ elim (Option-cases (find c xs)) [
    | inl nowhere ↦ absurd (ground arith)
    | inr (k, e) ↦ let at : suc k ≡ i = ground arith in rw (← at) (ap (◌∷◌ x) (find-split c xs k e))
  ]
]

pub find-append :
    (c : ℕ) (name text : List ℕ)
    → find c name ≡ none
    → find c (name ++ c ∷ text) ≡ some (length name)
unfolding find
find-append c [] text h = ground arith
find-append c (x ∷ xs) text h = elim (Bool-cases (c == x)) [
  | inl hit ↦ absurd (ground arith)
  | inr miss ↦ elim (Option-cases (find c xs)) [
    | inl nowhere ↦ rw (miss, find-append c xs text nowhere)
    | inr (k, e) ↦ absurd (ground arith)
  ]
]
