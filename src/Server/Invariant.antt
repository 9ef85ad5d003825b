-- ===== src/Server/Invariant.antt =====
-- The invariant of the users, their registration and the rooms: UserManager and RoomManager of
-- ChattingServer_v1.1/ChattingServer.
pub mod Changes
pub mod Removal
pub mod Handlers
pub mod Exits
pub mod Effect
pub mod Unicast
pub mod Protocol
pub mod Rounds
pub mod Reach
use tcp_socket_chatting_serv.Base.{
  ℕ, ◌≡◌, ◌≢◌, refl, sym, ap, subst, ◌∙◌, Bool, true, false, inl, inr, List, [], ◌∷◌, Option, none,
  some, All, ◌==◌, if◌then◌else◌, arith, Bool-cases, ==_iff, ==_refl,
}
use tcp_socket_chatting_serv.Containers.{
  contains, set_insert, set_erase, lookup, map_insert, map_erase, modify,
}
use tcp_socket_chatting_serv.Containers.Laws.{
  contains-set_insert, contains-set_erase, ne_of_test, All-contains, All-set_insert, All-set_erase,
  All-map, lookup-map_insert, lookup-map_erase, lookup-modify_self, lookup-modify_ne, All-lookup,
  All-map_insert, All-map_erase, All-modify,
}
use tcp_socket_chatting_serv.Server.World.{User, Room, World, update}

abbrev pub Heap : Type 0
Heap = ℕ → Option User

-- The user at `p` is there, and has the number `uid`; is in the room `rid`.
abbrev pub Registered : Heap → ℕ → ℕ → Type 0
Registered heap uid p = (u : User) × (heap p ≡ some u) × (u.user_id ≡ uid)

abbrev pub Inside : Heap → ℕ → ℕ → Type 0
Inside heap rid p = (u : User) × (heap p ≡ some u) × (u.curr_room ≡ some rid)

-- Every registered pointer is to a user with that number; every user is registered under the number
-- of the user and of the session; every member of a room is a user who is in that room; and every user
-- who is in a room is a member of it.
pub record Inv (heap : Heap) (users : List (ℕ × ℕ)) (rooms : List (ℕ × Room)) : Type 0 where
  pub registered : All (λ (uid, p). Registered heap uid p) users
  pub listed :
      (p : ℕ) (u : User)
      → heap p ≡ some u
      → (lookup u.user_id users ≡ some p) × (u.session.user_id ≡ u.user_id)
  pub members : All (λ (rid, room). All (λ p. Inside heap rid p) room.users) rooms
  pub located :
      (p : ℕ) (u : User) (rid : ℕ)
      → heap p ≡ some u
      → u.curr_room ≡ some rid
      → (room : Room) × (lookup rid rooms ≡ some room) × (contains p room.users ≡ true)

abbrev pub IsSound : World → Type 0
IsSound w = Inv w.heap w.user_list w.room_list

pub update_at : (heap : Heap) (p : ℕ) (x : Option User) → update heap p x p ≡ x
unfolding update
update_at heap p x = rw (==_refl p)

pub update_off : (heap : Heap) (p q : ℕ) (x : Option User) → q ≢ p → update heap p x q ≡ heap q
unfolding update
update_off heap p q x h = ground arith

-- The registrations, where a user changes and keeps both numbers.
pub Registered-update :
    (heap : Heap) (p : ℕ) (u u' : User)
    → heap p ≡ some u
    → u'.user_id ≡ u.user_id
    → (uid q : ℕ) → Registered heap uid q
    → Registered (update heap p (some u')) uid q
Registered-update heap p u u' here same uid q (v, there, e) = elim (Bool-cases (q == p)) [
  | inl hit ↦
      let at_p : q ≡ p = (==_iff q p).0 hit in
      let both : v ≡ u = ground (arith, ap heap at_p) in
      (u', rw at_p (update_at heap p (some u')), ground (arith, both))
  | inr miss ↦ (v, rw (update_off heap p q (some u') (ne_of_test q p miss)) there, e)
]

pub listed-update :
    (heap : Heap) (users : List (ℕ × ℕ)) (p : ℕ) (u u' : User)
    → heap p ≡ some u
    → u'.user_id ≡ u.user_id
    → u'.session ≡ u.session
    → ((q : ℕ) (v : User)
        → heap q ≡ some v
        → (lookup v.user_id users ≡ some q) × (v.session.user_id ≡ v.user_id))
    → (q : ℕ) (v : User) → update heap p (some u') q ≡ some v
    → (lookup v.user_id users ≡ some q) × (v.session.user_id ≡ v.user_id)
listed-update heap users p u u' here same session old q v there = elim (Bool-cases (q == p)) [
  | inl hit ↦
      let at_p : q ≡ p = (==_iff q p).0 hit in
      let e : u' ≡ v =
        ground (arith, update_at heap p (some u'), ap (update heap p (some u')) at_p) in
      let was : (lookup u.user_id users ≡ some p) × (u.session.user_id ≡ u.user_id) =
        old p u here in
      rw (← e, same, session, at_p) was
  | inr miss ↦ old q v (sym (update_off heap p q (some u') (ne_of_test q p miss)) ∙ there)
]

-- The members of a room of whom none is at `p`.
pub Inside-update :
    (heap : Heap) (p rid q : ℕ) (x : Option User)
    → q ≢ p
    → Inside heap rid q
    → Inside (update heap p x) rid q
Inside-update heap p rid q x h (v, there, e) = (v, rw (update_off heap p q x h) there, e)

-- A user in another room, or in none, is not at `p`.
pub Inside-ne :
    (heap : Heap) (p rid q : ℕ) (u : User)
    → heap p ≡ some u
    → u.curr_room ≢ some rid
    → Inside heap rid q
    → q ≢ p
Inside-ne heap p rid q u here h (v, there, e) same = h (ground (arith, ap heap same))
