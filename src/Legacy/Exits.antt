-- ===== src/Legacy/Exits.antt =====
-- `PROCESS_SERVER_EXIT` of ChattingServer_v1.0/ChattingServer/PacketManager.hpp and the cast that follows:
-- whose connection is closed.
use tcp_socket_chatting_serv.Base.{
  ℕ, ◌+◌, ◌-◌, ◌%◌, ◌^◌, ◌≢◌, ◌⊎◌, length-take, ◌≤◌, ◌≡◌, refl, sym, ap, ◌∙◌, subst, inl, inr, true,
  false, ◌&&◌, Bool-cases, List, [], ◌∷◌, ◌++◌, append-nil, none, some, All, length, take,
  get_elem?, ◌==◌, ==_iff, ==_refl, if◌then◌else◌, arith, ok, ◌>>=◌,
}
use tcp_socket_chatting_serv.Containers.{contains}
use tcp_socket_chatting_serv.Containers.Laws.{ne_of_test}
use tcp_socket_chatting_serv.Legacy.Slots.{range, Distinct-range, get_elem?-lt, set_at}
use tcp_socket_chatting_serv.Legacy.User.{UserInfo, close, lobby_no, is_connected}
use tcp_socket_chatting_serv.Legacy.Manager.{Sent, client_at, put_client, close_client}
use tcp_socket_chatting_serv.Legacy.Packets.{PacketInfo, multi, copied}
use tcp_socket_chatting_serv.Legacy.Cast.{cast_room, multi_to, multi_cast}
use tcp_socket_chatting_serv.Legacy.Process.{
  Server, enqueue_packet, process_server_exit, cast_packet, run_front, run_packet,
}
use tcp_socket_chatting_serv.Legacy.Completed.{
  closing, complete_sends, close_all, IsSend, complete_sends-closing,
}
use tcp_socket_chatting_serv.Legacy.Threads.{on_close}
use tcp_socket_chatting_serv.Legacy.RoomCast.{
  There, casts, There-range, multi_from_lem, closing-casts, casts-IsSend, contains-range_in,
}

-- The server once what was queued is sent.
abbrev pub after_sends : Server → List Sent → Server
after_sends s new = record s {
  manager = record s.manager { sent = s.manager.sent ++ new };
  packet_queue = [];
}

module _ (s : Server) (p : PacketInfo) (u : UserInfo) (idle : s.packet_queue ≡ [])
    (size : length s.manager.client_infos ≡ s.manager.current_capacity)
    (at : get_elem? s.manager.client_infos p.client_index ≡ some u) (on : is_connected u ≡ true)
    (full : 1 ≤ p.data_size) (whole : p.data_size ≤ length p.packet_data)
    (run : s.is_worker_run ≡ true) where
  -- The packet that is cast.
  exit_packet : PacketInfo
  exit_packet = copied (record (copied p) { send_type = multi; is_close = true })

  run_exit : run_packet (λ _. true) (process_server_exit p s) ≡ (
      multi_to (λ _. true) exit_packet (cast_room u) s.manager
      >>= (λ m. ok (record s { manager = m; packet_queue = [] })))
  unfolding run_packet run_front process_server_exit enqueue_packet cast_packet multi_cast client_at
      copied exit_packet
  run_exit = rw (idle, not_empty, at)
    where
      not_empty : (p.data_size == 0) ≡ false
      not_empty = ground arith

  exit_packet-full : 1 ≤ length (take exit_packet.data_size exit_packet.packet_data)
  unfolding exit_packet copied
  exit_packet-full =
      let once = length-take p.data_size p.packet_data whole in
      let twice = length-take p.data_size (take p.data_size p.packet_data) (omega (arith, once)) in
      let thrice =
        length-take p.data_size (take p.data_size (take p.data_size p.packet_data))
          (omega (arith, twice)) in
      subst (λ n. 1 ≤ n) (sym thrice) full

  in_range : contains p.client_index (range 0 s.manager.current_capacity) ≡ true
  in_range =
      contains-range_in p.client_index 0 s.manager.current_capacity (omega arith)
        (omega (arith, get_elem?-lt s.manager.client_infos p.client_index u at, size))

  everyone : List ℕ
  everyone = range 0 s.manager.current_capacity

  exit_in :
      (room : ℕ)
      → (new : List Sent) × (multi_to (λ _. true) exit_packet (some room) s.manager
          ≡ ok (record s.manager { sent = s.manager.sent ++ new }))
        × All IsSend new
        × (closing new ≡ (if is_connected u && (u.room == room) then p.client_index ∷ [] else []))
  unfolding multi_to exit_packet copied everyone
  exit_in room = (
    casts exit_packet room s.manager.client_infos everyone,
    multi_from_lem exit_packet room everyone s.manager (
        subst (λ k. All (There s.manager.client_infos) (range 0 k)) size
          (There-range s.manager.client_infos)),
    casts-IsSend exit_packet room s.manager.client_infos everyone exit_packet-full,
    closing-casts exit_packet room s.manager.client_infos everyone refl
          (Distinct-range 0 s.manager.current_capacity)
        ∙ rw (in_range, at) refl,
  )

  close_client-own :
      (new : List Sent)
      → close_all (p.client_index ∷ []) (after_sends s new)
        ≡ ok (record (after_sends s new) {
          manager = record s.manager {
            sent = s.manager.sent ++ new;
            client_infos =
                set_at p.client_index (record u { socket = none }) s.manager.client_infos;
            empty_clients = s.manager.empty_clients ++ p.client_index ∷ [];
            client_count = (s.manager.client_count + (2 ^ 32 - 1)) % 2 ^ 32;
          };
        })
  unfolding close_all on_close close_client client_at put_client close
  close_client-own new = rw (at, on) refl

  -- In version 1.0, where nothing is queued, the pool is as large as its capacity, the packet has
  -- a byte at least and is in its buffer, the workers run, and all sends to connected clients
  -- succeed: a connected client's request to leave, once it is queued and cast, makes sends. After
  -- a worker has handled the completion of each of them, the client has no socket, is in the queue
  -- of free clients and is counted out, and nothing else has changed, if the client was in a room;
  -- and nothing has changed if the client was in the lobby.
  pub server_exit_closes :
      (new : List Sent) × (run_packet (λ _. true) (process_server_exit p s)
        ≡ ok (after_sends s new))
      × (((u.room ≡ lobby_no) × (complete_sends new (after_sends s new) ≡ ok (after_sends s new)))
          ⊎ ((u.room ≢ lobby_no)
              × (complete_sends new (after_sends s new)
                  ≡ ok (record (after_sends s new) {
                    manager = record s.manager {
                      sent = s.manager.sent ++ new;
                      client_infos =
                          set_at p.client_index (record u { socket = none }) s.manager.client_infos;
                      empty_clients = s.manager.empty_clients ++ p.client_index ∷ [];
                      client_count = (s.manager.client_count + (2 ^ 32 - 1)) % 2 ^ 32;
                    };
                  }))))
  unfolding cast_room complete_sends close_all
  server_exit_closes = elim (Bool-cases (u.room == lobby_no)) [
    | inl outside ↦ elim (Bool-cases (u.prev_room == lobby_no)) [
      | inl nowhere ↦ (
        [],
        run_exit ∙ unfold multi_to in rw (outside, nowhere, append-nil s.manager.sent) refl,
        inl ((==_iff u.room lobby_no).0 outside, refl),
      )
      | inr left ↦
          let (new, e, full, c) = exit_in u.prev_room in
          let elsewhere : (u.room == u.prev_room) ≡ false = ground arith in
          let none_closes : closing new ≡ [] = c ∙ rw (on, elsewhere) refl in
          (
            new,
            run_exit ∙ rw (outside, left, e) refl,
            inl (
              (==_iff u.room lobby_no).0 outside,
              complete_sends-closing new (after_sends s new) run full
                  ∙ ap (λ l. close_all l (after_sends s new)) none_closes,
            ),
          )
    ]
    | inr inside ↦
        let (new, e, full, c) = exit_in u.room in
        let own : closing new ≡ p.client_index ∷ [] = c ∙ rw (on, ==_refl u.room) refl in
        (
          new,
          run_exit ∙ rw (inside, e) refl,
          inr (
            ne_of_test u.room lobby_no inside,
            complete_sends-closing new (after_sends s new) run full
                ∙ ap (λ l. close_all l (after_sends s new)) own
                ∙ close_client-own new,
          ),
        )
  ]
