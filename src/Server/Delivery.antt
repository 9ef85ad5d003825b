-- ===== src/Server/Delivery.antt =====
-- The sender's loop, SendServer::Run of ChattingServer_v1.1/ChattingServer/SendServer.h, over a queue.
use tcp_socket_chatting_serv.Base.{
  ℕ, zero, suc, ◌+◌, ◌≤◌, ◌≡◌, refl, sym, ap, ◌∙◌, Bool, true, List, [], ◌∷◌, ◌++◌, append-nil,
  append_assoc, Option, none, some, All, length, fill, if◌then◌else◌, Result, ok, ◌>>=◌,
}
use tcp_socket_chatting_serv.Stream.{sock_buf_size}
use tcp_socket_chatting_serv.Packet.Types.{Packet, pk_c_multicast, pk_s_multicast}
use tcp_socket_chatting_serv.Packet.Encoded.{wire}
use tcp_socket_chatting_serv.IoData.RoundTrip.{send_packet_lem}
use tcp_socket_chatting_serv.Server.World.{User, Room, World, SendPackage}
use tcp_socket_chatting_serv.Server.Threads.{send_to, send_job, run_send}
use tcp_socket_chatting_serv.Server.Cast.{Live, to_all, queued, deref-eq_ok}
use tcp_socket_chatting_serv.Server.Invariant.{Heap, IsSound}
use tcp_socket_chatting_serv.Server.Invariant.Handlers.{members-Live, multicast_lem}
use tcp_socket_chatting_serv.Server.Logic.{process}
use tcp_socket_chatting_serv.Containers.{lookup}

-- A number of rounds of the sender, as long as none faults.
unfoldable pub run_sends : ℕ → World → Result World
run_sends zero w = ok w
run_sends (suc n) w = do w' ← run_send w; run_sends n w'

-- What a package puts on the sockets: the packet's bytes and four zeros, for the socket of the user
-- that the session is of. An empty package puts nothing there.
unfoldable pub to_socket : Option User → Packet → List (ℕ × List ℕ)
to_socket none packet = []
to_socket (some u) packet = (u.session.socket, wire packet ++ fill 4 0) ∷ []

unfoldable pub delivery : Heap → Option ℕ → Option Packet → List (ℕ × List ℕ)
unfolding to_socket
delivery heap (some s) (some packet) = to_socket (heap s) packet
delivery heap _ _ = []

unfoldable pub deliveries : Heap → List SendPackage → List (ℕ × List ℕ)
deliveries heap [] = []
deliveries heap (pkg ∷ rest) = delivery heap pkg.session pkg.packet ++ deliveries heap rest

-- A package can be sent: its user is there, and its packet leaves four bytes of the stream free.
abbrev pub IsDeliverable : Heap → Option ℕ → Option Packet → Type 0
IsDeliverable heap (some s) (some packet) =
    ((u : User) × (heap s ≡ some u)) × (length (wire packet) + 4 ≤ sock_buf_size)
IsDeliverable heap _ _ = Unit {0}

send_to_lem :
    (w : World) (session : Option ℕ) (packet : Option Packet)
    → IsDeliverable w.heap session packet
    → send_to w session packet ≡ ok (record w { sent = w.sent ++ delivery w.heap session packet })
unfolding send_to delivery
send_to_lem w none packet h = ap (λ l. ok (record w { sent = l })) (sym (append-nil w.sent))
send_to_lem w (some s) none h = ap (λ l. ok (record w { sent = l })) (sym (append-nil w.sent))
send_to_lem w (some s) (some packet) ((u, here), room) =
    rw (deref-eq_ok w s u here, send_packet_lem packet room, here)

run_send-branch :
    (w : World) (queue : List SendPackage)
    → w.send_run ≡ true
    → w.packages ≡ queue
    → run_send w ≡ send_job w queue
unfolding run_send
run_send-branch w queue running q =
    ap (λ (b : Bool). if b then send_job w w.packages else ok w) running ∙ ap (send_job w) q

-- While the sender runs, as many of its rounds as packages are queued empty the queue without a
-- fault and put the packages on the sockets in the order of the queue, where each that is not
-- empty is for a user who is there and leaves four bytes of the stream free.
pub run_sends_lem :
    (w : World) (queue : List SendPackage)
    → w.send_run ≡ true
    → w.packages ≡ queue
    → All (λ pkg. IsDeliverable w.heap pkg.session pkg.packet) queue
    → run_sends (length queue) w
      ≡ ok (record w { packages = []; sent = w.sent ++ deliveries w.heap queue })
unfolding run_sends deliveries send_job
run_sends_lem w [] running q h =
    ap (λ l. ok (record w { packages = l })) q
    ∙ ap (λ l. ok (record w { packages = []; sent = l })) (sym (append-nil w.sent))
run_sends_lem w (pkg ∷ rest) running q (now, later) =
    ap (λ r. r >>= run_sends (length rest))
      (run_send-branch w (pkg ∷ rest) running q
        ∙ send_to_lem (record w { packages = rest }) pkg.session pkg.packet now)
    ∙ run_sends_lem
        (record w { packages = rest; sent = w.sent ++ delivery w.heap pkg.session pkg.packet }) rest
        running refl later
    ∙ ap (λ l. ok (record w { packages = []; sent = l }))
        (append_assoc w.sent (delivery w.heap pkg.session pkg.packet) (deliveries w.heap rest))

pub length-to_all : (users : List ℕ) (packet : Packet) → length (to_all users packet) ≡ length users
unfolding to_all
length-to_all [] packet = refl
length-to_all (p ∷ users) packet = ap suc (length-to_all users packet)

pub to_all-IsDeliverable :
    (heap : Heap) (users : List ℕ) (packet : Packet)
    → length (wire packet) + 4 ≤ sock_buf_size
    → All (Live heap) users
    → All (λ pkg. IsDeliverable heap pkg.session pkg.packet) (to_all users packet)
unfolding to_all
to_all-IsDeliverable heap [] packet room live = tt
to_all-IsDeliverable heap (p ∷ users) packet room (here, live) =
    ((here, room), to_all-IsDeliverable heap users packet room live)

-- While the invariant holds and the user of the session is there, in a room that exists, with no
-- package queued and the sender running: a multicast whose packet leaves four bytes of the stream
-- free is sent, by as many rounds of the sender as the room has members, to the sockets of all
-- members, in their order, and nothing else changes.
pub multicast-run_sends :
    (w : World) (s : ℕ) (u : User) (text : List ℕ) (rid : ℕ) (room : Room)
    → w.heap s ≡ some u
    → IsSound w
    → u.curr_room ≡ some rid
    → lookup rid w.room_list ≡ some room
    → w.send_run ≡ true
    → w.packages ≡ []
    → length (wire (pk_s_multicast u.nickname text)) + 4 ≤ sock_buf_size
    → (process w s (pk_c_multicast text) >>= run_sends (length room.users))
      ≡ ok (record w {
        packages = [];
        sent = w.sent ++ deliveries w.heap (to_all room.users (pk_s_multicast u.nickname text));
      })
unfolding queued
multicast-run_sends w s u text rid room here sound inside found running empty fits =
    ap (λ r. r >>= run_sends (length room.users))
      (multicast_lem w s u here sound text rid room inside found)
    ∙ ap (λ n. run_sends n (queued w told)) (sym (length-to_all room.users _))
    ∙ run_sends_lem (queued w told) told running (ap (λ l. l ++ told) empty)
        (to_all-IsDeliverable w.heap room.users _ fits (members-Live w sound rid room found))
  where
    told : List SendPackage
    told = to_all room.users (pk_s_multicast u.nickname text)
