-- ===== src/Tests/Screen.antt =====
-- Lines between clients of version 1.0, and the rows of their screens.
use tcp_socket_chatting_serv.Base.{ℕ, ◌≡◌, refl, true, List, [], ◌∷◌, some, fill, ok}
use tcp_socket_chatting_serv.Bytes.{from_le, le_bytes}
use tcp_socket_chatting_serv.Containers.{contains}
use tcp_socket_chatting_serv.Stream.{splice}
use tcp_socket_chatting_serv.Legacy.Packets.{until_nul, message_bytes, nickname_created}
use tcp_socket_chatting_serv.Legacy.Client.{
  ChatClient, nickname_check, check_answer, send_bytes, system_bytes,
}
use tcp_socket_chatting_serv.Legacy.Typing.{
  set_nickname, after_check, IsNickname, Typed, set_nickname-IsNickname,
}
use tcp_socket_chatting_serv.Legacy.Rows.{Rows}

-- The screen of a room.
abbrev screen : Rows
screen = record { send_y = 20; recv_y = 6; lines = [] }

abbrev typist : ChatClient
typist = record { nickname = 66 ∷ []; room = 3; is_worker_run = true; sent = [] }

abbrev unnamed : ChatClient
unnamed = record { nickname = []; room = 0; is_worker_run = true; sent = [] }

-- `"my name"` is refused for its space, and `B` is taken.
abbrev typed_names : List (List ℕ)
typed_names = (109 ∷ 121 ∷ 32 ∷ 110 ∷ []) ∷ [] ∷ (66 ∷ []) ∷ []

abbrev named : ChatClient
named = record unnamed { nickname = 66 ∷ []; sent = (2 ∷ 0 ∷ 11 ∷ 0 ∷ 66 ∷ 0 ∷ []) ∷ [] }

gets_name :
    set_nickname
      (fill 15 204)
      (λ _. true)
      (λ _. some (message_bytes nickname_created))
      typed_names
      unnamed
    ≡ ok (some (named, true))
unfolding set_nickname until_nul nickname_check after_check check_answer send_bytes system_bytes
    le_bytes message_bytes fill splice from_le contains
gets_name = refl

set_nickname-IsNickname_example : Typed typed_names (66 ∷ []) × IsNickname (66 ∷ [])
set_nickname-IsNickname_example =
    set_nickname-IsNickname (fill 15 204) (λ _. true) (λ _. some (message_bytes nickname_created))
      typed_names unnamed named gets_name
