-- ===== src/Tests/Stress.antt =====
-- A load generator with one client, and the server that it connects to.
use tcp_socket_chatting_serv.Base.{
  ℕ, ◌≡◌, refl, true, false, List, [], ◌∷◌, ◌++◌, none, some, length, fill, length-fill, get_elem?,
  arith, ok, ◌>>=◌,
}
use tcp_socket_chatting_serv.Stream.{splice}
use tcp_socket_chatting_serv.Legacy.User.{UserInfo}
use tcp_socket_chatting_serv.Legacy.Packets.{multi, chat_multicast}
use tcp_socket_chatting_serv.Legacy.Process.{Server}
use tcp_socket_chatting_serv.Legacy.Threads.{on_receive}
use tcp_socket_chatting_serv.Stress.Csv.{read_csv, ends_line}
use tcp_socket_chatting_serv.Stress.Csv.Lines.{Ending, by_lf, by_both, text_of, read_csv-text_of}
use tcp_socket_chatting_serv.Stress.Clients.{StressClient, StressServer, init_packet}
use tcp_socket_chatting_serv.Stress.Threads.{new_stress, sender_round}
use tcp_socket_chatting_serv.Stress.Steady.{IsSteady}
use tcp_socket_chatting_serv.Stress.Rounds.{round, talks}
use tcp_socket_chatting_serv.Stress.Reach.{start, reachable-GoesOn}
use tcp_socket_chatting_serv.Stress.Entry.{init_packet-entered}
use tcp_socket_chatting_serv.Stress.Talk.{cut_packet, sender_round-short}

-- `"Bond"` and `"hello"`.
abbrev bond : List ℕ
bond = 66 ∷ 111 ∷ 110 ∷ 100 ∷ []

abbrev hello : List ℕ
hello = 104 ∷ 101 ∷ 108 ∷ 108 ∷ 111 ∷ []

abbrev lines : List (List ℕ × Ending)
lines = (bond, by_lf) ∷ (hello, by_both) ∷ []

read_csv-text_of_example : read_csv (text_of lines ++ 66 ∷ []) ≡ bond ∷ hello ∷ []
unfolding ends_line
read_csv-text_of_example =
    read_csv-text_of lines (66 ∷ [])
      (
        (ground arith, (refl, (refl, (refl, (refl, tt))))),
        ((ground arith, (refl, (refl, (refl, (refl, (refl, tt)))))), tt),
      )
      (refl, tt)

reachable-GoesOn_example :
    (s : StressServer) × (round
        (talks [] (λ _. true) 0 0)
        (new_stress (some (text_of lines)) (some (text_of lines)))
      ≡ ok s)
    × IsSteady s
unfolding ends_line new_stress
reachable-GoesOn_example =
    reachable-GoesOn lines lines
      (
        (ground arith, (refl, (refl, (refl, (refl, tt))))),
        ((ground arith, (refl, (refl, (refl, (refl, (refl, tt)))))), tt),
      )
      (
        (ground arith, (refl, (refl, (refl, (refl, tt))))),
        ((ground arith, (refl, (refl, (refl, (refl, (refl, tt)))))), tt),
      )
      (omega arith) (omega arith) (omega arith, (omega arith, tt)) (omega arith, (omega arith, tt))
      (new_stress (some (text_of lines)) (some (text_of lines))) (talks [] (λ _. true) 0 0) start
      (λ some_. absurd (some_ refl))

abbrev client : StressClient
client = record { index = 0; socket = some 7; nickname = bond; sent = [] }

abbrev user : UserInfo
user = record { socket = some 9; room = 0; prev_room = 0; id = none; nickname = fill 32 0 }

abbrev server : Server
server = record {
  manager = record {
    client_infos = user ∷ [];
    empty_clients = [];
    max_client_count = 8;
    current_capacity = 1;
    client_count = 1;
    next_id = 1;
    sent = [];
  };
  packet_queue = [];
  is_worker_run = true;
}

init_packet-entered_example :
    (first second : List ℕ) × (init_packet (fill 32 204) (λ _. true) bond client
      ≡ ok (record client { sent = ([] ++ first ∷ []) ++ second ∷ [] }))
    × (s' : Server) × ((on_receive 0 (length first) (first ++ 0 ∷ []) server
          >>= on_receive 0 (length second) (second ++ []))
        ≡ ok s')
    × (get_elem? s'.manager.client_infos 0
        ≡ some (record user { room = 1; id = some 1; nickname = splice 0 (66 ∷ []) (fill 32 0) }))
init_packet-entered_example =
    init_packet-entered (fill 32 204) bond [] [] client 7 server 0 user (length-fill 32 204)
      (omega arith) (omega arith)
      (
        (omega arith, omega arith),
        (
          (omega arith, omega arith),
          ((omega arith, omega arith), ((omega arith, omega arith), tt)),
        ),
      )
      refl refl

abbrev generator : StressServer
generator = record {
  clients = client ∷ [];
  nicknames = bond ∷ [];
  contents = hello ∷ [];
  client_count = 1;
  content_index = 0;
  is_connecter_run = true;
  is_worker_run = true;
  is_sender_run = true;
}

sender_round-short_example :
    (bytes : List ℕ) × (bytes ≡ cut_packet (fill 32 204) chat_multicast bond hello)
    × (g' : StressServer) × (sender_round (fill 32 204) (λ _. true) 3 0 generator ≡ ok g')
    × (get_elem? g'.clients 0 ≡ some (record client { sent = [] ++ bytes ∷ [] }))
    × (on_receive 5 (length bytes) (bytes ++ []) server
        ≡ ok (record server {
          packet_queue =
              []
              ++ record {
                client_index = 5;
                data_size = length bytes;
                send_type = multi;
                is_close = false;
                packet_data = bytes;
              }
                ∷ [];
        }))
sender_round-short_example =
    sender_round-short (fill 32 204) [] hello 2 0 7 5 client generator server (length-fill 32 204)
      refl (omega arith) (omega arith) (omega arith) refl (omega arith) refl refl
      (
        (omega arith, omega arith),
        (
          (omega arith, omega arith),
          ((omega arith, omega arith), ((omega arith, omega arith), tt)),
        ),
      )
      (
        (omega arith, omega arith),
        (
          (omega arith, omega arith),
          (
            (omega arith, omega arith),
            ((omega arith, omega arith), ((omega arith, omega arith), tt)),
          ),
        ),
      )
