-- ===== src/Legacy/Lines.antt =====
-- `splitContent` and `MultiCast` of ChattingServer_v1.0/ChattingClient/IOCPClient.cpp: the packets that a
-- line to the room is sent in.
use tcp_socket_chatting_serv.Base.{
  ℕ, zero, suc, ◌+◌, ◌-◌, ◌/◌, ◌≤◌, ◌≡◌, refl, sym, ap, ◌∙◌, inl, inr, Bool, true, false,
  Bool-cases, List, [], ◌∷◌, ◌++◌, map, append-nil, append_assoc, All, length, length-drop, take,
  drop, leb, ltb, ◌==◌, str_eq, le→leb, if◌then◌else◌, arith, ok,
}
use tcp_socket_chatting_serv.Client.Commands.{starts_with}
use tcp_socket_chatting_serv.Legacy.Packets.{chat_multicast}
use tcp_socket_chatting_serv.Legacy.Client.{ChatClient, send_bytes}
use tcp_socket_chatting_serv.Legacy.Messages.{
  chat_bytes, send_chat_packet, split_from, split_content, send_parts, multicast_parts,
  process_send_msg,
}

-- The parts one after the other.
unfoldable pub joined : List (List ℕ) → List ℕ
joined [] = []
joined (part ∷ parts) = part ++ joined parts

-- What the parts of a text must be: the text in pieces of 600 bytes at most.
abbrev Splits : List ℕ → List (List ℕ) → Type 0
Splits content parts = (joined parts ≡ content) × All (λ part. length part ≤ 600) parts

pub take-drop : (n : ℕ) (xs : List ℕ) → take n xs ++ drop n xs ≡ xs
take-drop zero xs = refl
take-drop (suc n) [] = refl
take-drop (suc n) (x ∷ xs) = ap (◌∷◌ x) (take-drop n xs)

length-take_le : (n : ℕ) (xs : List ℕ) → length (take n xs) ≤ n
length-take_le zero xs = omega arith
length-take_le (suc n) [] = omega arith
length-take_le (suc n) (x ∷ xs) = omega (arith, length-take_le n xs)

-- Fuel for each byte is enough.
split_from_lem :
    (fuel : ℕ) (content : List ℕ)
    → length content ≤ fuel
    → Splits content (split_from fuel content)
      × (length (split_from fuel content) ≡ (length content + 599) / 600)
unfolding split_from joined
split_from_lem zero [] h = ((refl, tt), refl)
split_from_lem zero (x ∷ content) h = absurd (omega arith)
split_from_lem (suc fuel) [] h = ((refl, tt), refl)
split_from_lem (suc fuel) (x ∷ content) h =
    let left : length (drop 600 (x ∷ content)) ≡ length (x ∷ content) - 600 =
      length-drop 600 (x ∷ content) in
    let ((whole, small), count) =
      split_from_lem fuel (drop 600 (x ∷ content)) (omega (arith, left)) in
    (
      (
        ap (λ l. take 600 (x ∷ content) ++ l) whole ∙ take-drop 600 (x ∷ content),
        (length-take_le 600 (x ∷ content), small),
      ),
      omega (arith, left, count),
    )

-- The number of packets.
abbrev pub packet_count : ℕ → ℕ
packet_count size = if ltb 600 size then (size + 599) / 600 else 1

multicast_parts_lem :
    (content : List ℕ)
    → Splits content (multicast_parts content)
      × (length (multicast_parts content) ≡ packet_count (length content))
unfolding multicast_parts split_content joined
multicast_parts_lem content = elim (Bool-cases (ltb 600 (length content))) [
  | inl long ↦ rw long (split_from_lem (length content) content (omega arith))
  | inr short ↦ rw short ((append-nil content, (ground arith, tt)), refl)
]

-- Sends that all succeed.
send_parts_lem :
    (junk : List ℕ) (action : ℕ) (parts : List (List ℕ)) (c : ChatClient)
    → All (λ part. length part ≤ 600) parts
    → send_parts junk (λ _. true) action parts c
      ≡ ok (record c { sent = c.sent ++ map (chat_bytes junk action c.nickname) parts }, action)
unfolding send_parts send_chat_packet send_bytes
send_parts_lem junk action [] c small =
    ap (λ l. ok (record c { sent = l }, action)) (sym (append-nil c.sent))
send_parts_lem junk action (part ∷ parts) c (fits, small) =
    let room : leb (length part) 900 ≡ true = le→leb _ 900 (omega (arith, fits)) in
    rw room (
      send_parts_lem junk action parts
        (record c { sent = c.sent ++ chat_bytes junk action c.nickname part ∷ [] }) small
      ∙ ap (λ l. ok (record c { sent = l }, action)) (append_assoc c.sent _ _))

-- A line without a slash in front is for the room.
pub process_send_msg-plain :
    (junk : List ℕ) (sends : ℕ → Bool) (content : List ℕ) (c : ChatClient)
    → starts_with (b'/' ∷ []) content ≡ false
    → process_send_msg junk sends content c
      ≡ send_parts junk sends chat_multicast (multicast_parts content) c
unfolding process_send_msg starts_with str_eq
process_send_msg-plain junk sends [] c plain = refl
process_send_msg-plain junk sends (x ∷ content) c plain =
    let other : (x == b'/') ≡ false = ground arith in ground (arith, other)

-- In version 1.0, a line that does not start with a slash is sent, where all sends succeed, as
-- packets for the room whose texts, one after the other, are the line; each text has 600 bytes at
-- most, and a line of up to 600 bytes takes one packet, a longer one as many as 600 go into its
-- length, rounded up.
pub multicast_line :
    (junk content : List ℕ) (c : ChatClient)
    → starts_with (b'/' ∷ []) content ≡ false
    → (parts : List (List ℕ)) × (process_send_msg junk (λ _. true) content c
        ≡ ok (
          record c { sent = c.sent ++ map (chat_bytes junk chat_multicast c.nickname) parts },
          chat_multicast,
        ))
      × (joined parts ≡ content)
      × All (λ part. length part ≤ 600) parts
      × (length parts ≡ packet_count (length content))
multicast_line junk content c plain =
    let ((whole, small), count) = multicast_parts_lem content in
    (
      multicast_parts content,
      process_send_msg-plain junk (λ _. true) content c plain
          ∙ send_parts_lem junk chat_multicast (multicast_parts content) c small,
      whole,
      small,
      count,
    )
