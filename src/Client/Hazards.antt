-- ===== src/Client/Hazards.antt =====
-- What the display of ChattingServer_v1.1/ChattingClient/ClientFunc.cpp and Client.cpp is taken for
-- after it was replaced, or before.
use tcp_socket_chatting_serv.Base.{
  ℕ, ◌+◌, ◌≡◌, refl, List, ◌==◌, false, arith, ok, fault, dangling, ok_injective,
}
use tcp_socket_chatting_serv.Client.Room.{new_room, update_player}
use tcp_socket_chatting_serv.Client.State.{
  lobby, chatroom, room_display, is_lobby, show, Client, into_room, f_room_enter, as_room,
}
use tcp_socket_chatting_serv.Client.Threads.{lobby_key, press_enter, live_lobby}

-- Where a client in the lobby is told that it has entered a room, the enter key that the page of
-- the lobby still waits for goes through the deleted display.
pub press_enter-dangling :
    (c c' : Client) (name : List ℕ)
    → c.state ≡ lobby
    → f_room_enter c c.user_id name ≡ ok c'
    → (c'.state ≡ chatroom) × (lobby_key c' c.display_no 13 0 ≡ fault dangling)
unfolding f_room_enter into_room show is_lobby as_room lobby_key press_enter live_lobby
press_enter-dangling c c' name state e =
    let e' : ok entered ≡ ok c' = rw state at e in
    let last : entered ≡ c' = ok_injective entered c' e' in rw (← last) (refl, rw moved)
  where
    entered : Client
    entered = record c {
      display = room_display (update_player (new_room c.user_id c.nickname) c.user_id name);
      display_no = c.display_no + 1;
      state = chatroom;
    }

    moved : (c.display_no == c.display_no + 1) ≡ false
    moved = ground arith
