-- ===== src/Server/Hazards.antt =====
-- Pointers that Room.cpp and RoomManager.cpp keep to users whom UserManager.cpp has removed.
use tcp_socket_chatting_serv.Server.Invariant.Handlers.{room_enter_lem}
use tcp_socket_chatting_serv.Server.Invariant.Exits.{remove_user-room}
use tcp_socket_chatting_serv.Base.{
  ℕ, ◌≡◌, ◌≢◌, refl, sym, ap, subst, ◌∙◌, Bool, true, false, inl, inr, List, [], ◌∷◌, Option, none,
  some, ◌==◌, if◌then◌else◌, arith, Bool-cases, Option-cases, ==_iff, ok, fault, dangling,
  >>=-eq_ok, ok_injective,
}
use tcp_socket_chatting_serv.Containers.{contains, set_insert, set_erase, lookup, modify}
use tcp_socket_chatting_serv.Containers.Laws.{lookup-modify_self}
use tcp_socket_chatting_serv.Packet.Types.{Packet, pk_c_room_enter, pk_s_room_exit}
use tcp_socket_chatting_serv.Server.World.{
  close, delete_user, User, Room, World, deref, put_user, push_package, user_exit, update,
}
use tcp_socket_chatting_serv.Server.Rooms.{
  remove_from_lobby, cast_except, put_users, room_at, room_cast, cast_to, exit_room,
  send_room_list_to_all,
}
use tcp_socket_chatting_serv.Server.Users.{leave_place, remove_user}
use tcp_socket_chatting_serv.Server.Logic.{process}
use tcp_socket_chatting_serv.Server.Cast.{package_to, queued, deref-eq_ok}
use tcp_socket_chatting_serv.Server.Invariant.Handlers.{room_at_lem}
use tcp_socket_chatting_serv.Server.Invariant.{IsSound, update_at}
use tcp_socket_chatting_serv.Containers.Laws.{lookup-modify_ne}
use tcp_socket_chatting_serv.Server.Invariant.Changes.{with_users}

-- A cast to a user who is gone.
cast_to-dangling :
    (w : World) (s : ℕ) (users : List ℕ) (packet : Packet)
    → w.heap s ≡ none
    → contains s users ≡ true
    → cast_to w users packet ≡ fault dangling
unfolding cast_to contains deref push_package
cast_to-dangling w s [] packet gone c = ground arith
cast_to-dangling w s (p ∷ users) packet gone c = elim (Bool-cases (s == p)) [
  | inl hit ↦
      let at_s : p ≡ s = sym ((==_iff s p).0 hit) in
      let nobody : w.heap p ≡ none = ap w.heap at_s ∙ gone in rw nobody
  | inr miss ↦ elim (Option-cases (w.heap p)) [
    | inl nobody ↦ rw nobody
    | inr (v, there) ↦
        rw there (
          cast_to-dangling (push_package w (package_to p packet)) s users packet gone
            (rw miss at c))
  ]
]

cast_except-keeps :
    (w w' : World) (users : List ℕ) (uid : ℕ) (packet : Packet)
    → cast_except w users uid packet ≡ ok w'
    → w'.room_list ≡ w.room_list
unfolding cast_except push_package
cast_except-keeps w w' [] uid packet e = ap (λ (x : World). x.room_list) (sym (ok_injective w w' e))
cast_except-keeps w w' (p ∷ users) uid packet e =
    let (v, _, e₁) = >>=-eq_ok (deref w p) _ e in
    let w₁ = (if v.user_id == uid then w else push_package w (package_to p packet)) in
    cast_except-keeps w₁ w' users uid packet e₁ ∙ same (v.user_id == uid)
  where
    same :
        (b : Bool) → (if b then w else push_package w (package_to p packet)).room_list ≡ w.room_list
    same true = refl
    same false = refl

user_exit-keeps : (w w' : World) (s : ℕ) → user_exit w s ≡ ok w' → w'.room_list ≡ w.room_list
unfolding user_exit put_user
user_exit-keeps w w' s e =
    let (u, _, e₁) = >>=-eq_ok (deref w s) _ e in
    ap (λ (x : World). x.room_list) (sym (ok_injective _ w' e₁))

-- Leaving a room leaves the other rooms alone.
exit_room-other :
    (w w' : World) (r rid s : ℕ)
    → r ≢ rid
    → exit_room w rid s true ≡ ok w'
    → lookup r w'.room_list ≡ lookup r w.room_list
unfolding exit_room put_users
exit_room-other w w' r rid s other e =
    let (u, _, e₁) = >>=-eq_ok (deref w s) _ e in
    let (room, _, e₂) = >>=-eq_ok (room_at w rid) _ e₁ in
    let (w₁, cast, e₃) =
      >>=-eq_ok (cast_except w room.users u.user_id (pk_s_room_exit u.user_id)) _ e₂ in
    let (w₂, exited, e₄) = >>=-eq_ok (user_exit w₁ s) _ e₃ in
    let same : w₂.room_list ≡ w.room_list =
      user_exit-keeps w₁ w₂ s exited
      ∙ cast_except-keeps w w₁ room.users u.user_id (pk_s_room_exit u.user_id) cast in
    let last : w'.room_list ≡ modify rid (with_users (set_erase s)) w₂.room_list =
      ap (λ (x : World). x.room_list) (sym (ok_injective _ w' e₄)) in
    ap (lookup r) last
    ∙ lookup-modify_ne r rid (with_users (set_erase s)) w₂.room_list other
    ∙ ap (lookup r) same

leave_place-other :
    (w w' : World) (r s : ℕ) (place : Option ℕ)
    → place ≢ some r
    → leave_place w s place ≡ ok w'
    → lookup r w'.room_list ≡ lookup r w.room_list
unfolding leave_place remove_from_lobby
leave_place-other w w' r s none away e =
    ap (λ (x : World). lookup r x.room_list) (sym (ok_injective _ w' e))
leave_place-other w w' r s (some rid) away e =
    exit_room-other w w' r rid s (λ same. away (ap some (sym same))) e

-- A removed user is gone, and stays a member of every room but the one that the user was last in.
pub remove_user-keeps :
    (w w' : World) (s : ℕ) (u : User) (r : ℕ)
    → w.heap s ≡ some u
    → u.curr_room ≢ some r
    → remove_user w s ≡ ok w'
    → (w'.heap s ≡ none) × (lookup r w'.room_list ≡ lookup r w.room_list)
unfolding remove_user delete_user close
remove_user-keeps w w' s u r there away e =
    let (v, found, e₁) = >>=-eq_ok (deref w s) _ e in
    let same : v ≡ u = ok_injective v u (sym found ∙ deref-eq_ok w s u there) in
    let (w₁, left_place, e₂) = >>=-eq_ok (leave_place w s v.curr_room) _ e₁ in
    let away' : v.curr_room ≢ some r = λ o. away (ground (arith, same)) in
    let last = ok_injective _ w' e₂ in
    (
      ap (λ (x : World). x.heap s) (sym last) ∙ update_at w₁.heap s none,
      ap (λ (x : World). lookup r x.room_list) (sym last)
          ∙ leave_place-other w w₁ r s v.curr_room away' left_place,
    )

-- Once a user was removed who was a member of a room other than the one that the user was last in,
-- a cast in that room goes through the deleted user.
cast_after_switch :
    (w w' : World) (s : ℕ) (u : User) (r : ℕ) (room : Room) (packet : Packet)
    → w.heap s ≡ some u
    → u.curr_room ≢ some r
    → lookup r w.room_list ≡ some room
    → contains s room.users ≡ true
    → remove_user w s ≡ ok w'
    → room_cast w' r packet ≡ fault dangling
unfolding room_cast
cast_after_switch w w' s u r room packet there away found member e =
    let (gone, same) = remove_user-keeps w w' s u r there away e in
    rw (room_at_lem w' r room (same ∙ found)) (cast_to-dangling w' s room.users packet gone member)

-- While the invariant holds, a user who is in one room and enters another, where both exist, is in
-- the second afterwards, and a member of both.
room_switch :
    (w : World) (s : ℕ) (u : User) (r₁ r₂ : ℕ) (first second : Room)
    → w.heap s ≡ some u
    → IsSound w
    → u.curr_room ≡ some r₁
    → r₁ ≢ r₂
    → lookup r₁ w.room_list ≡ some first
    → lookup r₂ w.room_list ≡ some second
    → (w' : World) × (process w s (pk_c_room_enter r₂) ≡ ok w')
      × (w'.heap s ≡ some (record u { curr_room = some r₂ }))
      × (lookup r₁ w'.room_list ≡ some first)
      × (contains s first.users ≡ true)
      × (lookup r₂ w'.room_list ≡ some (with_users (set_insert s) second))
unfolding put_users put_user queued
room_switch w s u r₁ r₂ first second there sound inside other found₁ found₂ = (
  _,
  room_enter_lem w s u there sound r₂ second found₂,
  update_at w.heap s (some (record u { curr_room = some r₂ })),
  lookup-modify_ne r₁ r₂ (with_users (set_insert s)) w.room_list other ∙ found₁,
  member,
  lookup-modify_self r₂ (with_users (set_insert s)) second w.room_list found₂,
)
  where
    member : contains s first.users ≡ true
    member =
        let (room, found, c) = sound.located s u r₁ there inside in
        let same : room ≡ first = ground (arith, found ∙ sym found, found, found₁) in
        subst (λ (x : Room). contains s x.users ≡ true) same c

-- While the invariant holds: once a user who is in one room has entered another, where both exist,
-- and was then removed, a cast in the first room goes through the deleted user.
pub switch_then_removed :
    (w w' w'' : World) (s : ℕ) (u : User) (r₁ r₂ : ℕ) (first second : Room) (packet : Packet)
    → w.heap s ≡ some u
    → IsSound w
    → u.curr_room ≡ some r₁
    → r₁ ≢ r₂
    → lookup r₁ w.room_list ≡ some first
    → lookup r₂ w.room_list ≡ some second
    → process w s (pk_c_room_enter r₂) ≡ ok w'
    → remove_user w' s ≡ ok w''
    → room_cast w'' r₁ packet ≡ fault dangling
switch_then_removed w w' w'' s u r₁ r₂ first second packet there sound inside other found₁ found₂
      enter leave =
    let (v, entered, user, room, member, _) =
      room_switch w s u r₁ r₂ first second there sound inside other found₁ found₂ in
    let same : v ≡ w' = ok_injective v w' (sym entered ∙ enter) in
    cast_after_switch w' w'' s (record u { curr_room = some r₂ }) r₁ first packet
      (ap (λ (x : World). x.heap s) (sym same) ∙ user) (λ e. other (sym (ground arith)))
      (ap (λ (x : World). lookup r₁ x.room_list) (sym same) ∙ room) member leave

-- While the invariant holds, the removal of a user who is in a room, which exists, and still among
-- the users in the lobby, leaves the user there: sending the list of rooms to all of the lobby
-- then goes through the deleted user.
remove_user-lobby_member :
    (w : World) (s : ℕ) (u : User) (rid : ℕ) (room : Room)
    → w.heap s ≡ some u
    → IsSound w
    → u.curr_room ≡ some rid
    → lookup rid w.room_list ≡ some room
    → contains s w.user_in_lobby ≡ true
    → (w' : World) × (remove_user w s ≡ ok w') × (send_room_list_to_all w' ≡ fault dangling)
unfolding send_room_list_to_all put_users put_user queued delete_user close
remove_user-lobby_member w s u rid room there sound inside found member = (
  _,
  remove_user-room w s u there sound rid room inside found,
  cast_to-dangling _ s w.user_in_lobby _
      (update_at (update w.heap s (some (record u { curr_room = none }))) s none) member,
)
