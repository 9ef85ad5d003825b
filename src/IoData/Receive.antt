-- ===== src/IoData/Receive.antt =====
-- What the session does with bytes that no well-behaved peer sent.
use tcp_socket_chatting_serv.Base.{
  ℕ, zero, suc, ◌+◌, ◌-◌, ◌≤◌, ◌<◌, ◌≡◌, refl, List, [], ◌∷◌, length, length-take, take, drop, fill,
  get_elem?, get_elem?-drop, get_elem?-append_fill, some, arith, le→leb, lt→leb, ◌==◌, Bool-cases,
  inl, inr, ok, fault, invalid_parameter,
}
use tcp_socket_chatting_serv.Stream.{
  Stream, sock_buf_size, initialize, splice, of_bytes, set, string_end, read_str, advance,
}
use tcp_socket_chatting_serv.Stream.Write.{splice_front}
use tcp_socket_chatting_serv.Packet.Factory.{get_packet, payload_size}
use tcp_socket_chatting_serv.IoData.{on_recv}

payload_size_short : (size : ℕ) → size < 4 → sock_buf_size < payload_size size
unfolding payload_size
payload_size_short size h = omega arith

of_bytes_long :
    (source : List ℕ) (size : ℕ)
    → sock_buf_size < size
    → of_bytes source size ≡ fault invalid_parameter
unfolding of_bytes
of_bytes_long source size h = rw (lt→leb size sock_buf_size h)

-- Where fewer bytes than a packet's type takes were received, `memcpy_s` fails: the size of the
-- rest wraps around.
pub on_recv_short :
    (junk : ℕ) (buffer : List ℕ) (size : ℕ)
    → size < 4
    → on_recv junk buffer size ≡ fault invalid_parameter
unfolding on_recv get_packet
on_recv_short junk buffer size h = rw (
  le→leb size sock_buf_size (omega arith),
  of_bytes_long (drop 4 (splice 0 (take size buffer) (fill sock_buf_size 0))) (payload_size size)
      (payload_size_short size h),
)

-- The scan for a NUL ends at the first one, or before the array does.
string_end_found :
    (xs : List ℕ) (k n : ℕ)
    → get_elem? xs k ≡ some 0
    → (m : ℕ) × (string_end xs n ≡ ok m) × (n < m) × (m ≤ n + k + 1)
unfolding string_end
string_end_found [] k n e = cc
string_end_found (x ∷ xs) zero n e = (n + 1, ground arith, omega arith, omega arith)
string_end_found (x ∷ xs) (suc k) n e = elim (Bool-cases (x == 0)) [
  | inl z ↦ (n + 1, rw z, omega arith, omega arith)
  | inr z ↦
      let (m, ends, lo, hi) = string_end_found xs k (n + 1) e in
      (m, rw z ends, omega arith, omega arith)
]

-- A string is read where a NUL stands behind its first byte.
pub read_str_found :
    (s : Stream) (i : ℕ)
    → get_elem? s.stream i ≡ some 0
    → s.read_ptr + 1 ≤ i
    → (value : List ℕ) × (s' : Stream) × (read_str s ≡ ok (value, s'))
      × (s'.stream ≡ s.stream)
      × (s'.read_ptr ≤ i + 1)
unfolding read_str
read_str_found s i e h =
    let (m, ends, lo, hi) =
      string_end_found (drop (s.read_ptr + 1) s.stream) (i - (s.read_ptr + 1)) 0 there in
    (take m (drop s.read_ptr s.stream), advance s (m + 1), rw ends, refl, omega arith)
  where
    index : s.read_ptr + 1 + (i - (s.read_ptr + 1)) ≡ i
    index = omega arith

    there : get_elem? (drop (s.read_ptr + 1) s.stream) (i - (s.read_ptr + 1)) ≡ some 0
    there = rw (get_elem?-drop (s.read_ptr + 1) (i - (s.read_ptr + 1)) s.stream, index) e

-- The state of a stream that holds a received payload: its last bytes are zero.
pub record IsPadded (s : Stream) : Type 0 where
  pub first : s.read_ptr ≡ 0
  pub room : s.offset + 4 ≤ sock_buf_size
  pub zero_at : (i : ℕ) → 1020 ≤ i → i < sock_buf_size → get_elem? s.stream i ≡ some 0

pub of_bytes-IsPadded :
    (source : List ℕ) (size : ℕ)
    → size ≤ 1020
    → size ≤ length source
    → (s : Stream) × (of_bytes source size ≡ ok s) × IsPadded s
unfolding of_bytes set initialize
of_bytes-IsPadded source size small enough = (
  record {
    offset = size;
    read_ptr = 0;
    stream = splice 0 (take size source) (fill sock_buf_size 0);
  },
  rw (le→leb size sock_buf_size (omega arith), le→leb size (length source) enough),
  record {
    first = refl;
    room = omega arith;
    zero_at = λ i lo hi. rw (splice_front (take size source)) (
        get_elem?-append_fill (take size source) (sock_buf_size - length (take size source)) i 0
          (omega (arith, length-take size source enough))
          (omega (arith, length-take size source enough)));
  },
)
