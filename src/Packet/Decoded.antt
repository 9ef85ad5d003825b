-- ===== src/Packet/Decoded.antt =====
-- `decode` against the wire format.
use tcp_socket_chatting_serv.Base.{
  ℕ, ◌+◌, ◌^◌, ◌≤◌, ◌<◌, ◌≡◌, refl, sym, subst, ◌∙◌, List, [], ◌∷◌, ◌++◌, append-nil, append_assoc,
  length, All, arith, Result, ok, ◌>>=◌,
}
use tcp_socket_chatting_serv.Bytes.{le_bytes}
use tcp_socket_chatting_serv.Stream.{Stream, advance, read_int, read_str}
use tcp_socket_chatting_serv.Stream.Read.{Reads, read_int-Reads, read_str-Reads}
use tcp_socket_chatting_serv.Packet.Types.{
  Packet, type, count16, counted, pk_undefined, pk_c_server_enter, pk_c_server_exit,
  pk_c_room_enter, pk_c_room_exit, pk_c_broadcast, pk_c_multicast, pk_c_unicast, pk_c_room_create,
  pk_c_lobby_room_info, pk_s_server_enter_ok, pk_s_server_enter_no, pk_s_lobby_room_info,
  pk_s_lobby_user_info, pk_s_lobby_enter, pk_s_lobby_exit, pk_s_room_enter, pk_s_room_exit,
  pk_s_room_name, pk_s_broadcast, pk_s_multicast, pk_s_unicast_ok, pk_s_unicast_no,
}
use tcp_socket_chatting_serv.Packet.Wire.{
  read_ids, read_names, read_cast, read_text, read_number, read_user, read_rooms, read_users,
  decode,
}
use tcp_socket_chatting_serv.Packet.Encoded.{str_bytes, ids_bytes, names_bytes, payload}
use tcp_socket_chatting_serv.Packet.Sendable.{IsText, IsListing, IsSendable}
use tcp_socket_chatting_serv.Packet.Factory.{default_packet}

-- `f` reads `a` where the bytes `bs` stand, and stops behind them.
abbrev pub Decodes : {A : Type 0} → (Stream → Result (A × Stream)) → List ℕ → A → Type 0
Decodes f bs a =
    (s : Stream) (rest : List ℕ)
    → Reads s (bs ++ rest)
    → (s' : Stream) × (f s ≡ ok (a, s')) × Reads s' rest

ok-Decodes : {A : Type 0} (a : A) → Decodes (λ s. ok (a, s)) [] a
ok-Decodes a s rest h = (s, refl, h)

-- One read after another.
seq-Decodes :
    {A B : Type 0} (f : Stream → Result (A × Stream)) (g : A → Stream → Result (B × Stream))
    (bs cs : List ℕ) (a : A) (b : B)
    → Decodes f bs a
    → Decodes (g a) cs b
    → Decodes (λ s. f s >>= λ (x, s'). g x s') (bs ++ cs) b
seq-Decodes f g bs cs a b hf hg s rest h =
    let (s', e, h') = hf s (cs ++ rest) (rw (append_assoc bs cs rest) at h) in
    let (s'', e', h'') = hg s' rest h' in (s'', rw e e', h'')

int-Decodes :
    (w old v : ℕ) → 0 < w → w ≤ 4 → v < 256 ^ w → Decodes (read_int w old) (le_bytes w v) v
int-Decodes w old v pos small fits s rest h =
    let (e, h') = read_int-Reads w old v rest pos small fits h in (advance s w, e, h')

str-Decodes : (value : List ℕ) → IsText value → Decodes read_str (str_bytes value) value
str-Decodes [] t s rest h = absurd t
str-Decodes (c ∷ value) t s rest h =
    let (e, h') = read_str-Reads c value rest t.1 (rw (append_assoc value (0 ∷ []) rest) at h) in
    (advance s (length value + 2), e, h')

ids-Decodes :
    (w id : ℕ) (acc ids : List ℕ)
    → 0 < w
    → w ≤ 4
    → All (λ i. i < 256 ^ w) ids
    → Decodes (read_ids (length ids) w id acc) (ids_bytes w ids) (acc ++ ids)
unfolding read_ids ids_bytes
ids-Decodes w id acc [] pos small fits = rw append-nil (ok-Decodes acc)
ids-Decodes w id acc (i ∷ ids) pos small fits = rw (← append_assoc acc (i ∷ []) ids) (
    seq-Decodes (read_int w id) (λ x. read_ids (length ids) w x (acc ++ x ∷ [])) _ _ i _
      (int-Decodes w id i pos small fits.0) (ids-Decodes w i (acc ++ i ∷ []) ids pos small fits.1))

names-Decodes :
    (acc names : List (List ℕ))
    → All IsText names
    → Decodes (read_names (length names) acc) (names_bytes names) (acc ++ names)
unfolding read_names names_bytes
names-Decodes acc [] t = rw append-nil (ok-Decodes acc)
names-Decodes acc (name ∷ names) t = rw (← append_assoc acc (name ∷ []) names) (
    seq-Decodes read_str (λ x. read_names (length names) (acc ++ x ∷ [])) _ _ name _
      (str-Decodes name t.0) (names-Decodes (acc ++ name ∷ []) names t.1))

-- The last read of a packet: the bytes are all of `bs`.
last-Decodes :
    {A B : Type 0} (f : Stream → Result (A × Stream)) (bs : List ℕ) (a : A) (pk : A → B)
    → Decodes f bs a
    → Decodes (λ s. f s >>= λ (x, s'). ok (pk x, s')) bs (pk a)
last-Decodes f bs a pk h =
    subst (λ (cs : List ℕ). Decodes (λ s. f s >>= λ (x, s'). ok (pk x, s')) cs (pk a))
      (append-nil bs) (seq-Decodes f (λ x s'. ok (pk x, s')) bs [] a (pk a) h (ok-Decodes (pk a)))

text-Decodes :
    (pk : List ℕ → Packet) (value : List ℕ)
    → IsText value
    → Decodes (read_text pk) (str_bytes value) (pk value)
unfolding read_text
text-Decodes pk value t = last-Decodes read_str _ value pk (str-Decodes value t)

number-Decodes :
    (w old v : ℕ) (pk : ℕ → Packet)
    → 0 < w
    → w ≤ 4
    → v < 256 ^ w
    → Decodes (read_number w old pk) (le_bytes w v) (pk v)
unfolding read_number
number-Decodes w old v pk pos small fits =
    last-Decodes (read_int w old) _ v pk (int-Decodes w old v pos small fits)

cast-Decodes :
    (pk : List ℕ → List ℕ → Packet) (value text : List ℕ)
    → IsText value
    → IsText text
    → Decodes (read_cast pk) (str_bytes value ++ str_bytes text) (pk value text)
unfolding read_cast
cast-Decodes pk value text t u =
    seq-Decodes read_str (λ x s. read_str s >>= λ (y, s'). ok (pk x y, s')) _ _ value _
      (str-Decodes value t) (last-Decodes read_str _ text (pk value) (str-Decodes text u))

user-Decodes :
    (old uid : ℕ) (pk : ℕ → List ℕ → Packet) (name : List ℕ)
    → uid < 2 ^ 32
    → IsText name
    → Decodes (read_user old pk) (le_bytes 4 uid ++ str_bytes name) (pk uid name)
unfolding read_user
user-Decodes old uid pk name fits t =
    seq-Decodes (read_int 4 old) (λ x s. read_str s >>= λ (y, s'). ok (pk x y, s')) _ _ uid _
      (int-Decodes 4 old uid (omega arith) (omega arith) fits)
      (last-Decodes read_str _ name (pk uid) (str-Decodes name t))

-- The two loops of a listing, behind its count.
abbrev read_listing :
    (ℕ → List ℕ → List (List ℕ) → Packet) → ℕ → ℕ → ℕ → Stream → Result (Packet × Stream)
read_listing pk w junk old s = read_int 2 old s >>= λ (n, s₁).
    read_ids n w junk [] s₁ >>= λ (ids, s₂).
    read_names n [] s₂ >>= λ (names, s₃). ok (pk n ids names, s₃)

count16_lem {ℓ} : {A : Type ℓ} (xs : List A) → length xs < 2 ^ 16 → count16 xs ≡ length xs
unfolding count16
count16_lem xs h = omega arith

listing-Decodes :
    (pk : ℕ → List ℕ → List (List ℕ) → Packet) (w junk old : ℕ) (ids : List ℕ)
    (names : List (List ℕ))
    → 0 < w
    → w ≤ 4
    → IsListing (256 ^ w) ids names
    → Decodes
        (read_listing pk w junk old)
        (le_bytes 2 (count16 names) ++ (ids_bytes w ids ++ names_bytes names))
        (pk (count16 names) ids names)
listing-Decodes pk w junk old ids names pos small (same, few, fits, texts) =
    seq-Decodes (read_int 2 old)
      (λ n s₁. read_ids n w junk [] s₁ >>= λ (ids', s₂).
        read_names n [] s₂ >>= λ (names', s₃). ok (pk n ids' names', s₃))
      (le_bytes 2 (count16 names)) (ids_bytes w ids ++ names_bytes names) (count16 names) _
      (int-Decodes 2 old (count16 names) (omega arith) (omega arith) (omega (arith, named)))
      (seq-Decodes (read_ids (count16 names) w junk [])
        (λ ids' s₂. read_names (count16 names) [] s₂ >>= λ (names', s₃).
          ok (pk (count16 names) ids' names', s₃))
        (ids_bytes w ids) (names_bytes names) ids _
        (rw counted_ids (ids-Decodes w junk [] ids pos small fits))
        (last-Decodes (read_names (count16 names) []) (names_bytes names) names
          (pk (count16 names) ids) (rw named (names-Decodes [] names texts))))
  where
    named : count16 names ≡ length names
    named = count16_lem names few

    counted_ids : count16 names ≡ length ids
    counted_ids = named ∙ sym same

-- `decode` reads the fields of a packet, into an object that the factory made for its type.
pub decode-Decodes :
    (junk : ℕ) (p : Packet)
    → IsSendable p
    → Decodes (decode junk (default_packet junk (type p))) (payload p) (counted p)
unfolding decode default_packet type payload counted read_rooms read_users
decode-Decodes junk (pk_undefined t) h = rw h (ok-Decodes (pk_undefined 0))
decode-Decodes junk (pk_c_server_enter nickname) h = text-Decodes pk_c_server_enter nickname h
decode-Decodes junk pk_c_server_exit h = ok-Decodes pk_c_server_exit
decode-Decodes junk (pk_c_room_enter rid) h =
    number-Decodes 2 0 rid pk_c_room_enter (omega arith) (omega arith) h
decode-Decodes junk pk_c_room_exit h = ok-Decodes pk_c_room_exit
decode-Decodes junk (pk_c_broadcast text) h = text-Decodes pk_c_broadcast text h
decode-Decodes junk (pk_c_multicast text) h = text-Decodes pk_c_multicast text h
decode-Decodes junk (pk_c_unicast recver text) h = cast-Decodes pk_c_unicast recver text h.0 h.1
decode-Decodes junk (pk_c_room_create name) h = text-Decodes pk_c_room_create name h
decode-Decodes junk pk_c_lobby_room_info h = ok-Decodes pk_c_lobby_room_info
decode-Decodes junk (pk_s_server_enter_ok pid) h =
    number-Decodes 4 0 pid pk_s_server_enter_ok (omega arith) (omega arith) h
decode-Decodes junk pk_s_server_enter_no h = ok-Decodes pk_s_server_enter_no
decode-Decodes junk (pk_s_lobby_room_info n ids names) h =
    listing-Decodes pk_s_lobby_room_info 2 junk junk ids names (omega arith) (omega arith) h
decode-Decodes junk (pk_s_lobby_user_info rooms n ids names) h =
    seq-Decodes (read_int 2 0) (λ r. read_listing (pk_s_lobby_user_info r) 4 junk 0) _ _ rooms _
      (int-Decodes 2 0 rooms (omega arith) (omega arith) h.0)
      (listing-Decodes (pk_s_lobby_user_info rooms) 4 junk 0 ids names (omega arith) (omega arith)
        h.1)
decode-Decodes junk (pk_s_lobby_enter uid nickname) h =
    user-Decodes 0 uid pk_s_lobby_enter nickname h.0 h.1
decode-Decodes junk pk_s_lobby_exit h = ok-Decodes pk_s_lobby_exit
decode-Decodes junk (pk_s_room_enter uid name) h = user-Decodes 0 uid pk_s_room_enter name h.0 h.1
decode-Decodes junk (pk_s_room_exit uid) h =
    number-Decodes 4 0 uid pk_s_room_exit (omega arith) (omega arith) h
decode-Decodes junk (pk_s_room_name name) h = text-Decodes pk_s_room_name name h
decode-Decodes junk (pk_s_broadcast nickname text) h =
    cast-Decodes pk_s_broadcast nickname text h.0 h.1
decode-Decodes junk (pk_s_multicast nickname text) h =
    cast-Decodes pk_s_multicast nickname text h.0 h.1
decode-Decodes junk (pk_s_unicast_ok nickname text) h =
    cast-Decodes pk_s_unicast_ok nickname text h.0 h.1
decode-Decodes junk pk_s_unicast_no h = ok-Decodes pk_s_unicast_no
