-- ===== src/Server/Cast.antt =====
-- What the casts of Room.cpp and RoomManager.cpp queue.
use tcp_socket_chatting_serv.Base.{
  ℕ, ◌≡◌, refl, sym, ap, ◌∙◌, List, [], ◌∷◌, ◌++◌, append-nil, append_assoc, Option, some, All,
  ◌==◌, Bool-cases, inl, inr, ok,
}
use tcp_socket_chatting_serv.Containers.{set_erase}
use tcp_socket_chatting_serv.Packet.Types.{Packet}
use tcp_socket_chatting_serv.Server.World.{User, Room, SendPackage, World, deref, push_package}
use tcp_socket_chatting_serv.Server.Rooms.{cast_to, cast_except, broadcast_in}

-- A user is there.
abbrev pub Live : (ℕ → Option User) → ℕ → Type 0
Live heap p = (u : User) × (heap p ≡ some u)

-- A packet for a session, for each of the sessions, and for the members of each room.
abbrev pub package_to : ℕ → Packet → SendPackage
package_to p packet = record { session = some p; packet = some packet }

unfoldable pub to_all : List ℕ → Packet → List SendPackage
to_all [] packet = []
to_all (p ∷ users) packet = package_to p packet ∷ to_all users packet

unfoldable pub to_rooms : List (ℕ × Room) → Packet → List SendPackage
to_rooms [] packet = []
to_rooms ((_, room) ∷ rooms) packet = to_all room.users packet ++ to_rooms rooms packet

-- The world with more packages queued.
unfoldable pub queued : World → List SendPackage → World
queued w pkgs = record w { packages = w.packages ++ pkgs }

pub queued_none : (w : World) → queued w [] ≡ w
unfolding queued
queued_none w = ap (λ (l : List SendPackage). record w { packages = l }) (append-nil w.packages)

pub queued-queued :
    (w : World) (ps qs : List SendPackage) → queued (queued w ps) qs ≡ queued w (ps ++ qs)
unfolding queued
queued-queued w ps qs =
    ap (λ (l : List SendPackage). record w { packages = l }) (append_assoc w.packages ps qs)

pub push_package-queued : (w : World) (pkg : SendPackage) → push_package w pkg ≡ queued w (pkg ∷ [])
unfolding push_package queued
push_package-queued w pkg = refl

pub deref-eq_ok : (w : World) (p : ℕ) (u : User) → w.heap p ≡ some u → deref w p ≡ ok u
unfolding deref
deref-eq_ok w p u e = rw e

-- A cast to users who are all there queues one package for each, in the order of the set.
pub cast_to_lem :
    (w : World) (users : List ℕ) (packet : Packet)
    → All (Live w.heap) users
    → cast_to w users packet ≡ ok (queued w (to_all users packet))
unfolding cast_to to_all push_package
cast_to_lem w [] packet live = ap ok (sym (queued_none w))
cast_to_lem w (p ∷ users) packet ((u, here), live) = rw (deref-eq_ok w p u here) (
    cast_to_lem (push_package w (package_to p packet)) users packet live
    ∙ ap (λ (v : World). ok (queued v (to_all users packet)))
        (push_package-queued w (package_to p packet))
    ∙ ap ok (queued-queued w (package_to p packet ∷ []) (to_all users packet)))

-- A broadcast queues the casts of all rooms, in the order of the map.
pub broadcast_in_lem :
    (w : World) (rooms : List (ℕ × Room)) (packet : Packet)
    → All (λ (_, room). All (Live w.heap) room.users) rooms
    → broadcast_in w rooms packet ≡ ok (queued w (to_rooms rooms packet))
unfolding broadcast_in to_rooms queued
broadcast_in_lem w [] packet live = ap ok (sym (queued_none w))
broadcast_in_lem w ((rid, room) ∷ rooms) packet (here, live) =
    rw (cast_to_lem w room.users packet here) (
      broadcast_in_lem (queued w (to_all room.users packet)) rooms packet live
      ∙ ap ok (queued-queued w (to_all room.users packet) (to_rooms rooms packet)))

-- Passing over the user at `p`, the only one with that number.
pub cast_except_lem :
    (w : World) (users : List ℕ) (p uid : ℕ) (packet : Packet)
    → All (λ q. (u : User) × (w.heap q ≡ some u) × ((u.user_id == uid) ≡ (p == q))) users
    → cast_except w users uid packet ≡ ok (queued w (to_all (set_erase p users) packet))
unfolding cast_except to_all set_erase push_package
cast_except_lem w [] p uid packet live = ap ok (sym (queued_none w))
cast_except_lem w (q ∷ users) p uid packet ((u, here, same), live) = elim (Bool-cases (p == q)) [
  | inl hit ↦ rw (deref-eq_ok w q u here, same, hit) (cast_except_lem w users p uid packet live)
  | inr miss ↦
      rw (deref-eq_ok w q u here, same, miss)
        (cast_except_lem (push_package w (package_to q packet)) users p uid packet live
          ∙ ap (λ (v : World). ok (queued v (to_all (set_erase p users) packet)))
              (push_package-queued w (package_to q packet))
          ∙ ap ok (queued-queued w (package_to q packet ∷ []) (to_all (set_erase p users) packet)))
]
