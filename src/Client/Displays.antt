-- ===== src/Client/Displays.antt =====
-- The client's state against the display that is shown: the functions of
-- ChattingServer_v1.1/ChattingClient/ClientFunc.cpp cast the display without a look at its class.
use tcp_socket_chatting_serv.Base.{
  ℕ, ◌⊎◌, ◌≡◌, refl, ap, inl, inr, List, ◌==◌, if◌then◌else◌, Bool-cases, arith, Result, ok, ◌>>=◌,
}
use tcp_socket_chatting_serv.Packet.Types.{
  Packet, pk_s_server_enter_ok, pk_s_lobby_room_info, pk_s_lobby_user_info, pk_s_room_enter,
  pk_s_room_exit, pk_s_room_name, pk_s_multicast, pk_s_broadcast, pk_s_unicast_ok, pk_s_unicast_no,
}
use tcp_socket_chatting_serv.Client.Lobby.{LobbyDisplay, new_lobby, set_room_list}
use tcp_socket_chatting_serv.Client.Room.{
  RoomDisplay, new_room, on_recv, update_player, remove_player, set_room_name,
}
use tcp_socket_chatting_serv.Client.State.{
  ClientState, pending, login, lobby, chatroom, is_lobby, Display, no_display, login_display,
  lobby_display, room_display, Client, show, as_room, into_room, f_server_enter_ok,
  f_lobby_room_info, f_room_enter, f_room_exit, f_room_name, f_recv_cast, recv_process, push_queue,
}

-- The display that a state goes with.
pub data Fits : ClientState → Display → Type 0 where
  fits_start : Fits pending no_display
  fits_asked : Fits pending login_display
  fits_login : Fits login login_display
  fits_lobby : (d : LobbyDisplay) → Fits lobby (lobby_display d)
  fits_room : (d : RoomDisplay) → Fits chatroom (room_display d)

abbrev pub IsFit : Client → Type 0
IsFit c = Fits c.state c.display

-- The packets that a client can take in a state: a list of rooms in the lobby, what concerns a room in
-- the room, the news of a member who enters in both, and anywhere the answer to the name, the news that
-- the user is out of the room, and what does not look at the display.
abbrev pub Expects : ClientState → ℕ → Packet → Type 0
Expects s id (pk_s_lobby_room_info n ids names) = (s ≡ lobby) ⊎ (n ≡ 0)
Expects s id (pk_s_room_enter uid name) = (s ≡ lobby) ⊎ (s ≡ chatroom)
Expects s id (pk_s_room_exit uid) = (uid ≡ id) ⊎ (s ≡ chatroom)
Expects s id (pk_s_room_name name) = s ≡ chatroom
Expects s id (pk_s_multicast nickname text) = s ≡ chatroom
Expects s id (pk_s_broadcast nickname text) = s ≡ chatroom
Expects s id (pk_s_unicast_ok nickname text) = s ≡ chatroom
Expects s id pk_s_unicast_no = s ≡ chatroom
Expects s id packet = Unit {0}

abbrev pub Keeps : Result Client → Type 0
Keeps r = (c' : Client) × (r ≡ ok c') × IsFit c'

pub in_lobby :
    {s : ClientState} {d : Display}
    → Fits s d
    → s ≡ lobby
    → (l : LobbyDisplay) × (d ≡ lobby_display l)
in_lobby fits_start e = cc
in_lobby fits_asked e = cc
in_lobby fits_login e = cc
in_lobby (fits_lobby l) e = (l, refl)
in_lobby (fits_room r) e = cc

in_room :
    {s : ClientState} {d : Display}
    → Fits s d
    → s ≡ chatroom
    → (r : RoomDisplay) × (d ≡ room_display r)
in_room fits_start e = cc
in_room fits_asked e = cc
in_room fits_login e = cc
in_room (fits_lobby l) e = cc
in_room (fits_room r) e = (r, refl)

fit_lobby : {s : ClientState} → s ≡ lobby → (d : LobbyDisplay) → Fits s (lobby_display d)
fit_lobby e d = rw e (fits_lobby d)

fit_room : {s : ClientState} → s ≡ chatroom → (d : RoomDisplay) → Fits s (room_display d)
fit_room e d = rw e (fits_room d)

abbrev with_display : Client → Display → Client
with_display c d = record c { display = d }

module _ (c : Client) (fit : IsFit c) where
  room_info-Keeps :
      (n : ℕ) (ids : List ℕ) (names : List (List ℕ))
      → (c.state ≡ lobby) ⊎ (n ≡ 0)
      → Keeps (f_lobby_room_info c n ids names)
  unfolding f_lobby_room_info
  room_info-Keeps n ids names e = elim (Bool-cases (n == 0)) [
    | inl none_there ↦ (c, rw none_there, fit)
    | inr some_there ↦ elim e [
      | inl here ↦
          let (d, shown) = in_lobby fit here in
          (
            with_display c (lobby_display (set_room_list d ids names)),
            rw (some_there, shown),
            fit_lobby here (set_room_list d ids names),
          )
      | inr empty ↦ absurd (ground arith)
    ]
  ]

  -- In a room, the display is changed to that of a room.
  in_room-Keeps :
      (f : RoomDisplay → RoomDisplay)
      → c.state ≡ chatroom
      → Keeps (as_room c.display >>= λ d. ok (record c { display = room_display (f d) }))
  unfolding as_room
  in_room-Keeps f here =
      let (d, shown) = in_room fit here in
      (with_display c (room_display (f d)), rw shown, fit_room here (f d))

  cast-Keeps :
      (packet : Packet) (f : RoomDisplay → RoomDisplay)
      → ((d : RoomDisplay) → on_recv d packet ≡ ok (f d))
      → c.state ≡ chatroom
      → Keeps (f_recv_cast c packet)
  unfolding f_recv_cast as_room
  cast-Keeps packet f cast here =
      let (d, shown) = in_room fit here in
      (with_display c (room_display (f d)), rw (shown, cast d), fit_room here (f d))

  room_exit-Keeps : (uid : ℕ) → (uid ≡ c.user_id) ⊎ (c.state ≡ chatroom) → Keeps (f_room_exit c uid)
  unfolding f_room_exit show
  room_exit-Keeps uid e = elim (Bool-cases (uid == c.user_id)) [
    | inl mine ↦ (
      record (show c (lobby_display (new_lobby c.user_id))) { state = lobby },
      rw mine,
      fits_lobby (new_lobby c.user_id),
    )
    | inr other ↦ elim e [
      | inl same ↦ absurd (ground arith)
      | inr here ↦ rw other (in_room-Keeps (λ d. remove_player d uid) here)
    ]
  ]

into_room_stays : (c : Client) → c.state ≡ chatroom → into_room c ≡ c
unfolding into_room is_lobby
into_room_stays c here =
    ap
      (λ (s : ClientState).
        if is_lobby s
        then record (show c (room_display (new_room c.user_id c.nickname))) { state = chatroom }
        else c)
      here

room_enter-Keeps :
    (c : Client) (uid : ℕ) (name : List ℕ)
    → IsFit c
    → (c.state ≡ lobby) ⊎ (c.state ≡ chatroom)
    → Keeps (f_room_enter c uid name)
unfolding f_room_enter into_room is_lobby show as_room
room_enter-Keeps c uid name fit (inl here) =
    rw here (_, refl, fits_room (update_player (new_room c.user_id c.nickname) uid name))
room_enter-Keeps c uid name fit (inr here) =
    rw (into_room_stays c here) (in_room-Keeps c fit (λ d. update_player d uid name) here)

-- A client whose display is the one of its state takes a packet that its state expects without a
-- fault, and its display is that of its state afterwards.
pub recv_process-Keeps :
    (c : Client) (packet : Packet)
    → IsFit c
    → Expects c.state c.user_id packet
    → Keeps (recv_process c packet)
unfolding recv_process f_room_name f_server_enter_ok push_queue show on_recv
recv_process-Keeps c (pk_s_server_enter_ok pid) fit e = (_, refl, fits_lobby (new_lobby pid))
recv_process-Keeps c (pk_s_lobby_room_info n ids names) fit e = room_info-Keeps c fit n ids names e
recv_process-Keeps c (pk_s_lobby_user_info rooms n ids names) fit e = (c, refl, fit)
recv_process-Keeps c (pk_s_room_enter uid name) fit e = room_enter-Keeps c uid name fit e
recv_process-Keeps c (pk_s_room_exit uid) fit e = room_exit-Keeps c fit uid e
recv_process-Keeps c (pk_s_room_name name) fit e = in_room-Keeps c fit (λ d. set_room_name d name) e
recv_process-Keeps c (pk_s_multicast nickname text) fit e =
    cast-Keeps c fit (pk_s_multicast nickname text) _ (λ d. refl) e
recv_process-Keeps c (pk_s_broadcast nickname text) fit e =
    cast-Keeps c fit (pk_s_broadcast nickname text) _ (λ d. refl) e
recv_process-Keeps c (pk_s_unicast_ok nickname text) fit e =
    cast-Keeps c fit (pk_s_unicast_ok nickname text) _ (λ d. refl) e
recv_process-Keeps c pk_s_unicast_no fit e = cast-Keeps c fit pk_s_unicast_no _ (λ d. refl) e
recv_process-Keeps c packet fit e = (c, refl, fit)
