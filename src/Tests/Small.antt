-- ===== src/Tests/Small.antt =====
-- A small server: one user in a room, one in the lobby, and a room that is empty.
use tcp_socket_chatting_serv.Base.{
  ℕ, ◌≡◌, ◌⊎◌, refl, ap, true, inl, inr, [], ◌∷◌, none, some, ◌==◌, arith, if◌then◌else◌,
  Bool-cases, ==_iff,
}
use tcp_socket_chatting_serv.Containers.{contains, lookup}
use tcp_socket_chatting_serv.Server.World.{User, Room, World}
use tcp_socket_chatting_serv.Server.Invariant.{IsSound, Heap}

abbrev pub alice : User
alice = record {
  session = record { socket = 7; user_id = 1 };
  user_id = 1;
  curr_room = some 1;
  nickname = 65 ∷ [];
}

abbrev pub bob : User
bob = record {
  session = record { socket = 8; user_id = 2 };
  user_id = 2;
  curr_room = none;
  nickname = 66 ∷ [];
}

abbrev pub den : Room
den = record { room_id = 1; room_name = 68 ∷ []; users = 100 ∷ [] }

abbrev pub hall : Room
hall = record { room_id = 2; room_name = 72 ∷ []; users = [] }

abbrev pub users_at : Heap
users_at p = if p == 100 then some alice else if p == 200 then some bob else none

abbrev pub small : World
small = record {
  heap = users_at;
  user_list = (1, 100) ∷ (2, 200) ∷ [];
  user_id = 3;
  room_list = (1, den) ∷ (2, hall) ∷ [];
  room_id = 3;
  user_in_lobby = 200 ∷ [];
  packages = [];
  send_run = true;
  job_queue = [];
  process_run = true;
  worker_run = true;
  closed = [];
  sent = [];
}

users_at_cases :
    (p : ℕ) (u : User) → users_at p ≡ some u → ((p ≡ 100) × (u ≡ alice)) ⊎ ((p ≡ 200) × (u ≡ bob))
users_at_cases p u e = elim (Bool-cases (p == 100)) [
  | inl hit ↦ inl ((==_iff p 100).0 hit, ground arith)
  | inr miss ↦ elim (Bool-cases (p == 200)) [
    | inl hit ↦ inr ((==_iff p 200).0 hit, ground arith)
    | inr none_of ↦ absurd (ground arith)
  ]
]

small_listed :
    (p : ℕ) (u : User)
    → users_at p ≡ some u
    → (lookup u.user_id small.user_list ≡ some p) × (u.session.user_id ≡ u.user_id)
unfolding lookup
small_listed p u e = elim (users_at_cases p u e) [
  | inl (at, is) ↦ rw (at, is) (refl, refl)
  | inr (at, is) ↦ rw (at, is) (refl, refl)
]

small_located :
    (p : ℕ) (u : User) (rid : ℕ)
    → users_at p ≡ some u
    → u.curr_room ≡ some rid
    → (room : Room) × (lookup rid small.room_list ≡ some room) × (contains p room.users ≡ true)
unfolding lookup contains
small_located p u rid e o = elim (users_at_cases p u e) [
  | inl (at, is) ↦
      let one : rid ≡ 1 = ground (arith, ap (λ (v : User). v.curr_room) is) in
      rw (at, one) (den, refl, refl)
  | inr (at, is) ↦ absurd (ground (arith, ap (λ (v : User). v.curr_room) is))
]

pub small-IsSound : IsSound small
small-IsSound = record {
  registered = ((alice, refl, refl), ((bob, refl, refl), tt));
  listed = small_listed;
  members = (((alice, refl, refl), tt), (tt, tt));
  located = small_located;
}
