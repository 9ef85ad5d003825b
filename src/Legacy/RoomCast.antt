-- ===== src/Legacy/RoomCast.antt =====
-- What a cast to a room sends: `MultiCast` of ChattingServer_v1.0/ChattingServer/ChatClientManager.h, where
-- all sends succeed.
use tcp_socket_chatting_serv.Base.{
  ℕ, zero, suc, ◌+◌, ◌⊎◌, ◌≤◌, ◌<◌, ◌≡◌, refl, sym, ap, ◌∙◌, inl, inr, Bool, true, false, ◌&&◌,
  Bool-cases, List, [], ◌∷◌, ◌++◌, append-nil, append_assoc, Option, none, some, All, length, take,
  get_elem?, ◌==◌, ==_iff, ==_refl, if◌then◌else◌, arith, ok,
}
use tcp_socket_chatting_serv.Containers.{contains}
use tcp_socket_chatting_serv.Containers.Laws.{ne_of_test}
use tcp_socket_chatting_serv.Legacy.Slots.{range, Distinct, All-range}
use tcp_socket_chatting_serv.Legacy.User.{io_send, io_close, UserInfo, close, is_connected}
use tcp_socket_chatting_serv.Legacy.Manager.{Sent, ClientManager, client_at}
use tcp_socket_chatting_serv.Legacy.Packets.{PacketInfo}
use tcp_socket_chatting_serv.Legacy.Cast.{send_msg, cast_operation, multi_from}
use tcp_socket_chatting_serv.Legacy.Completed.{closes, closing, IsSend}

-- Whether a cast to a room reaches a client.
abbrev pub hears_in : Option UserInfo → ℕ → Bool
hears_in none room = false
hears_in (some u) room = is_connected u && (u.room == room)

abbrev pub told : PacketInfo → ℕ → Sent
told p i = record {
  receiver = i;
  bytes = take p.data_size p.packet_data;
  operation = cast_operation p i;
}

-- What a cast to a room sends to the clients of a list.
unfoldable pub casts : PacketInfo → ℕ → List UserInfo → List ℕ → List Sent
casts p room infos [] = []
casts p room infos (i ∷ is) =
    let rest = casts p room infos is in
    if hears_in (get_elem? infos i) room then told p i ∷ rest else rest

abbrev pub There : List UserInfo → ℕ → Type 0
There infos i = (u : UserInfo) × (get_elem? infos i ≡ some u)

pub multi_from_lem :
    (p : PacketInfo) (room : ℕ) (is : List ℕ) (m : ClientManager)
    → All (There m.client_infos) is
    → multi_from (λ _. true) p room is m
      ≡ ok (record m { sent = m.sent ++ casts p room m.client_infos is })
unfolding multi_from send_msg client_at casts There
multi_from_lem p room [] m there = ap (λ l. ok (record m { sent = l })) (sym (append-nil m.sent))
multi_from_lem p room (i ∷ is) m ((u, at), there) =
    elim (Bool-cases (is_connected u && (u.room == room))) [
      | inl hears ↦
          let on : is_connected u ≡ true = ground arith in
          rw (at, hears, on)
            (multi_from_lem p room is (record m { sent = m.sent ++ told p i ∷ [] }) there
              ∙ ap (λ l. ok (record m { sent = l })) (append_assoc m.sent (told p i ∷ []) _))
      | inr other ↦ rw (at, other) (multi_from_lem p room is m there)
    ]

pub casts-IsSend :
    (p : PacketInfo) (room : ℕ) (infos : List UserInfo) (is : List ℕ)
    → 1 ≤ length (take p.data_size p.packet_data)
    → All IsSend (casts p room infos is)
unfolding casts
casts-IsSend p room infos [] full = tt
casts-IsSend p room infos (i ∷ is) full = elim (Bool-cases (hears_in (get_elem? infos i) room)) [
  | inl hears ↦ rw hears ((full, operation), casts-IsSend p room infos is full)
  | inr deaf ↦ rw deaf (casts-IsSend p room infos is full)
]
  where
    operation : (cast_operation p i ≡ io_send) ⊎ (cast_operation p i ≡ io_close)
    operation = elim (Bool-cases (p.is_close && (i == p.client_index))) [
      | inl last ↦ inr (rw last refl)
      | inr plain ↦ inl (rw plain refl)
    ]

-- A closing cast closes the sender, where the sender is on the list and hears the cast.
pub closing-casts :
    (p : PacketInfo) (room : ℕ) (infos : List UserInfo) (is : List ℕ)
    → p.is_close ≡ true
    → Distinct is
    → closing (casts p room infos is) ≡ (
        if contains p.client_index is && hears_in (get_elem? infos p.client_index) room
        then p.client_index ∷ []
        else [])
unfolding closing casts contains closes
closing-casts p room infos [] close d = refl
closing-casts p room infos (i ∷ is) close (fresh, d) = elim (Bool-cases (p.client_index == i)) [
  | inl own ↦
      let same : i ≡ p.client_index = sym ((==_iff p.client_index i).0 own) in
      let last : closing (casts p room infos is) ≡ [] =
        closing-casts p room infos is close d ∙ rw (← same, fresh) in
      elim (Bool-cases (hears_in (get_elem? infos i) room)) [
        | inl hears ↦ rw (← same, hears, close, ==_refl i, last)
        | inr deaf ↦ rw (← same, deaf, ==_refl i, last)
      ]
  | inr other ↦
      let away : (i == p.client_index) ≡ false = ground arith in
      elim (Bool-cases (hears_in (get_elem? infos i) room)) [
        | inl hears ↦ rw (hears, other, close, away) (closing-casts p room infos is close d)
        | inr deaf ↦ rw (deaf, other) (closing-casts p room infos is close d)
      ]
]

get_elem?-There : (infos : List UserInfo) (i : ℕ) → i < length infos → There infos i
unfolding There
get_elem?-There [] i h = absurd (omega arith)
get_elem?-There (u ∷ infos) zero h = (u, refl)
get_elem?-There (u ∷ infos) (suc i) h = get_elem?-There infos i (omega arith)

pub There-range : (infos : List UserInfo) → All (There infos) (range 0 (length infos))
There-range infos =
    All-range (There infos) 0 (length infos) (λ i l h. get_elem?-There infos i (omega (arith, h)))

pub contains-range_in : (i lo n : ℕ) → lo ≤ i → i < lo + n → contains i (range lo n) ≡ true
unfolding contains range
contains-range_in i lo zero l h = absurd (omega arith)
contains-range_in i lo (suc n) l h = elim (Bool-cases (i == lo)) [
  | inl hit ↦ rw hit
  | inr miss ↦
      rw miss (contains-range_in i (suc lo) n (omega (arith, ne_of_test i lo miss)) (omega arith))
]
