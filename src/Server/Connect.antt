-- ===== src/Server/Connect.antt =====
-- A new connection: AccepterThread of ChatServer.cpp, with UserManager::CreateUser below it.
use tcp_socket_chatting_serv.Base.{
  ℕ, ◌≡◌, ◌≢◌, ap, false, List, [], ◌∷◌, ◌++◌, append_assoc, none, ◌==◌, if◌then◌else◌, arith,
  Bool-cases, inl, inr, ◌+◌, ◌%◌, ◌^◌, Bool, some,
}
use tcp_socket_chatting_serv.Containers.{lookup, map_insert, set_insert}
use tcp_socket_chatting_serv.Server.World.{
  World, close, is_connected, invalid_socket, put_user, update,
}
use tcp_socket_chatting_serv.Server.Rooms.{push_into_lobby}
use tcp_socket_chatting_serv.Server.Users.{
  Answers, invalid_handle, bind_port, bind_recv, connect, create_user, register,
}
use tcp_socket_chatting_serv.Server.Threads.{accept_one}
use tcp_socket_chatting_serv.Server.Invariant.{IsSound}
use tcp_socket_chatting_serv.Server.Invariant.Removal.{Inv-register}

-- The world with a new user at `p`, with this socket: under the next number, which counts up at 32
-- bits, in no room, without a name, and in the lobby.
abbrev pub joined : World → ℕ → ℕ → World
joined w p socket = record w {
  heap = λ q.
      if q == p
      then some (record {
        session = record { socket = socket; user_id = w.user_id };
        user_id = w.user_id;
        curr_room = none;
        nickname = [];
      })
      else w.heap q;
  user_list = map_insert w.user_id p w.user_list;
  user_id = (w.user_id + 1) % 2 ^ 32;
  user_in_lobby = set_insert p w.user_in_lobby;
}

-- What becomes of a connection, by the handle of the completion port and whether the first receive
-- succeeds: a user; or the socket is closed, three times over where the first receive fails.
abbrev pub accepted : World → ℕ → ℕ → ℕ → Bool → World
accepted w p socket port recv_ok =
    if port == invalid_handle
    then record w { closed = w.closed ++ socket ∷ [] }
    else if recv_ok
    then joined w p socket
    else record w { closed = w.closed ++ socket ∷ socket ∷ socket ∷ [] }

-- A round of the accepter with a valid socket closes the socket once where the completion port's
-- handle is INVALID_HANDLE_VALUE. For any other handle, the 0 of a refusal too, it closes the
-- socket three times where the first receive fails; else a new user without a name and in no room
-- has this socket and the next number, is in the lobby and on the list if the number is free
-- there, and the number counts up at 32 bits. Nothing else changes.
pub accept_one_lem :
    (w : World) (p socket : ℕ) (a : Answers)
    → socket ≢ invalid_socket
    → accept_one w p socket a ≡ accepted w p socket a.port a.recv_ok
unfolding accept_one create_user connect bind_port bind_recv close is_connected register put_user
    update push_into_lobby
accept_one_lem w p socket a valid = elim (Bool-cases (a.port == invalid_handle)) [
  | inl unbound ↦ rw (unbound, usable)
  | inr bound ↦ elim (Bool-cases a.recv_ok) [
    | inl armed ↦ rw (bound, armed, usable)
    | inr refused ↦ rw (bound, refused, usable) (ap closing thrice)
  ]
]
  where
    usable : (socket == invalid_socket) ≡ false
    usable = ground arith

    closing : List ℕ → World
    closing l = record w { closed = l }

    one : List ℕ
    one = socket ∷ []

    thrice : ((w.closed ++ one) ++ one) ++ one ≡ w.closed ++ socket ∷ socket ∷ socket ∷ []
    thrice = rw (append_assoc w.closed one one) (append_assoc w.closed (one ++ one) one)

-- A connection at a free address, under a free number, keeps the invariant.
pub accept_one-IsSound :
    (w : World) (p socket : ℕ) (a : Answers)
    → socket ≢ invalid_socket
    → w.heap p ≡ none
    → lookup w.user_id w.user_list ≡ none
    → IsSound w
    → IsSound (accept_one w p socket a)
unfolding update
accept_one-IsSound w p socket a valid free unused sound =
    rw (accept_one_lem w p socket a valid) (elim (Bool-cases (a.port == invalid_handle)) [
      | inl unbound ↦ rw unbound sound
      | inr bound ↦ elim (Bool-cases a.recv_ok) [
        | inl armed ↦
            rw (bound, armed)
              (Inv-register w.heap w.user_list w.room_list p w.user_id socket free unused sound)
        | inr refused ↦ rw (bound, refused) sound
      ]
    ])
