-- ===== src/Stream.antt =====
-- ChattingServer_v1.1/NetworkLib/Stream.h: the byte stream that packets are written to and read from.

pub mod Write
pub mod Read
use tcp_socket_chatting_serv.Base.{
  ℕ, ◌+◌, Bool, List, [], ◌∷◌, ◌++◌, leb, ◌==◌, if◌then◌else◌, length, take, drop, fill, Result, ok,
  fault, invalid_parameter, out_of_range, ◌>>=◌, ◌>>◌, guard,
}
use tcp_socket_chatting_serv.Bytes.{le_bytes, from_le}

abbrev pub sock_buf_size : ℕ
sock_buf_size = 1024

-- The array is its list of bytes, of length `sock_buf_size`.
pub record Stream : Type 0 where
  pub offset : ℕ
  pub read_ptr : ℕ
  pub stream : List ℕ

-- `Stream::initialize`, and so the default constructor.
unfoldable pub initialize : Stream
initialize = record { offset = 0; read_ptr = 0; stream = fill sock_buf_size 0 }

-- What `memcpy_s` leaves in the array `xs` when it copies `bs` to the index `at`, where it fits.
unfoldable pub splice : ℕ → List ℕ → List ℕ → List ℕ
splice at bs xs = take at xs ++ (bs ++ drop (at + length bs) xs)

unfoldable pub check_write_bound : Stream → ℕ → Bool
check_write_bound s len = leb (s.offset + len) sock_buf_size

unfoldable pub check_read_bound : Stream → ℕ → Bool
check_read_bound s len = leb (s.read_ptr + len) s.offset

-- `data` points to the bytes `source`; `memcpy_s` wants `size` to fit the array, and reads that many.
unfoldable pub set : Stream → List ℕ → ℕ → Result Stream
set s source size = do
  guard (leb size sock_buf_size) invalid_parameter
  guard (leb size (length source)) out_of_range
  ok (record s { offset = size; stream = splice 0 (take size source) s.stream })

-- The constructor from a pointer and a size.
unfoldable pub of_bytes : List ℕ → ℕ → Result Stream
unfolding initialize set
of_bytes source size = set initialize source size

-- `operator<<` of a value whose object representation is `bs`. Without room it writes nothing.
unfoldable pub write : Stream → List ℕ → Stream
unfolding check_write_bound splice
write s bs =
    if check_write_bound s (length bs)
    then record s { offset = s.offset + length bs; stream = splice s.offset bs s.stream }
    else s

-- `operator<<` of an unsigned integer of `w` bytes.
unfoldable pub write_int : ℕ → ℕ → Stream → Stream
unfolding write
write_int w v s = write s (le_bytes w v)

unfoldable pub write_chars : List ℕ → Stream → Stream
unfolding write
write_chars [] s = s
write_chars (ch ∷ value) s = write_chars value (write s (ch ∷ []))

-- `operator<<` of a string: its characters one by one, and a NUL.
unfoldable pub write_str : List ℕ → Stream → Stream
unfolding write_chars
write_str value s = write (write_chars value s) (0 ∷ [])

-- The stream with its read pointer moved on.
unfoldable pub advance : Stream → ℕ → Stream
advance s n = record s { read_ptr = s.read_ptr + n }

-- `Stream::read`: it does not look at the bounds, and a read past the array is out of range.
unfoldable pub read : Stream → ℕ → Result (List ℕ × Stream)
unfolding advance
read s len = do
  guard (leb (s.read_ptr + len) sock_buf_size) out_of_range
  ok (take len (drop s.read_ptr s.stream), advance s len)

-- `operator>>` into an unsigned integer of `w` bytes that holds `old`. The bound that it checks is
-- that of a write; where it fails, the variable keeps its value.
unfoldable pub read_int : ℕ → ℕ → Stream → Result (ℕ × Stream)
unfolding check_write_bound read
read_int w old s =
    if check_write_bound s w then (do (bs, s') ← read s w; ok (from_le bs, s')) else ok (old, s)

-- The loop of `operator>>` into a string, over the bytes that it has not looked at: `++length`, then
-- the byte there. The array's end is met by the access, before the loop's own test of it.
unfoldable pub string_end : List ℕ → ℕ → Result ℕ
string_end [] len = fault out_of_range
string_end (b ∷ rest) len = if b == 0 then ok (len + 1) else string_end rest (len + 1)

-- `operator>>` into a string. The first byte is not compared with NUL.
unfoldable pub read_str : Stream → Result (List ℕ × Stream)
unfolding string_end advance
read_str s = do
  len ← string_end (drop (s.read_ptr + 1) s.stream) 0
  ok (take len (drop s.read_ptr s.stream), advance s (len + 1))
