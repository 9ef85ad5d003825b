-- ===== src/Packet/Sendable.antt =====
-- Which packets survive the wire.
use tcp_socket_chatting_serv.Base.{ℕ, ◌^◌, ◌<◌, ◌≡◌, List, [], ◌∷◌, length, All}
use tcp_socket_chatting_serv.Stream.Read.{IsChar}
use tcp_socket_chatting_serv.Packet.Types.{
  Packet, pk_undefined, pk_c_server_enter, pk_c_room_enter, pk_c_broadcast, pk_c_multicast,
  pk_c_unicast, pk_c_room_create, pk_s_server_enter_ok, pk_s_lobby_room_info, pk_s_lobby_user_info,
  pk_s_lobby_enter, pk_s_room_enter, pk_s_room_exit, pk_s_room_name, pk_s_broadcast, pk_s_multicast,
  pk_s_unicast_ok,
}

-- A string that survives the wire: it is not empty, and its bytes are not NUL.
abbrev pub IsText : List ℕ → Type 0
IsText [] = ⊥
IsText (c ∷ cs) = IsChar c × All IsChar cs

-- A list of names is sent with its count, and the ids beside it are as many.
abbrev pub IsListing : ℕ → List ℕ → List (List ℕ) → Type 0
IsListing bound ids names =
    (length ids ≡ length names)
    × (length names < 2 ^ 16)
    × All (λ i. i < bound) ids
    × All IsText names

-- A packet whose fields survive the wire: numbers of the width of their type, and texts.
abbrev pub IsSendable : Packet → Type 0
IsSendable (pk_undefined t) = t ≡ 0
IsSendable (pk_c_server_enter nickname) = IsText nickname
IsSendable (pk_c_room_enter rid) = rid < 2 ^ 16
IsSendable (pk_c_broadcast text) = IsText text
IsSendable (pk_c_multicast text) = IsText text
IsSendable (pk_c_unicast recver text) = IsText recver × IsText text
IsSendable (pk_c_room_create name) = IsText name
IsSendable (pk_s_server_enter_ok pid) = pid < 2 ^ 32
IsSendable (pk_s_lobby_room_info n ids names) = IsListing (2 ^ 16) ids names
IsSendable (pk_s_lobby_user_info rooms n ids names) =
    (rooms < 2 ^ 16) × IsListing (2 ^ 32) ids names
IsSendable (pk_s_lobby_enter uid nickname) = (uid < 2 ^ 32) × IsText nickname
IsSendable (pk_s_room_enter uid name) = (uid < 2 ^ 32) × IsText name
IsSendable (pk_s_room_exit uid) = uid < 2 ^ 32
IsSendable (pk_s_room_name name) = IsText name
IsSendable (pk_s_broadcast nickname text) = IsText nickname × IsText text
IsSendable (pk_s_multicast nickname text) = IsText nickname × IsText text
IsSendable (pk_s_unicast_ok nickname text) = IsText nickname × IsText text
IsSendable p = Unit {0}
