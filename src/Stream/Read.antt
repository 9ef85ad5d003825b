-- ===== src/Stream/Read.antt =====
-- Reading from a stream (`operator>>` of Stream.h) in which the bytes of a value come next.
use tcp_socket_chatting_serv.Base.{
  ℕ, ◌+◌, ◌^◌, ◌≤◌, ◌<◌, ◌≡◌, sym, ap, subst, List, [], ◌∷◌, ◌++◌, length, length-append,
  length-drop, take, drop, take-append_length, drop_advance, All, arith, le→leb, ok, append_assoc,
}
use tcp_socket_chatting_serv.Bytes.{le_bytes, length-le_bytes, from_le-le_bytes}
use tcp_socket_chatting_serv.Stream.{Stream, sock_buf_size, advance, read_int, read_str, string_end}
use native.Mathlib.Nat.{zero-add}

-- `bs` is what the array holds from the read pointer on. A value of up to four bytes passes the
-- bound that a read checks.
pub record Reads (s : Stream) (bs : List ℕ) : Type 0 where
  pub size : length s.stream ≡ sock_buf_size
  pub rest : drop s.read_ptr s.stream ≡ bs
  pub room : s.offset + 4 ≤ sock_buf_size

module _ {s : Stream} (cs bs : List ℕ) (h : Reads s (cs ++ bs)) where
  pub advance-Reads : Reads (advance s (length cs)) bs
  unfolding advance
  advance-Reads = record {
    size = h.size;
    rest = drop_advance s.read_ptr s.stream cs bs h.rest;
    room = h.room;
  }

  Reads-fits : 0 < length cs → s.read_ptr + length cs ≤ sock_buf_size
  Reads-fits pos =
      omega (
        arith,
        h.size,
        ap (length {0}) h.rest,
        length-drop s.read_ptr s.stream,
        length-append cs bs,
      )

-- The bytes of a value of `w` bytes are read back, whatever the variable held.
pub read_int-Reads :
    {s : Stream} (w old v : ℕ) (bs : List ℕ)
    → 0 < w
    → w ≤ 4
    → v < 256 ^ w
    → Reads s (le_bytes w v ++ bs)
    → (read_int w old s ≡ ok (v, advance s w)) × Reads (advance s w) bs
unfolding read_int
read_int-Reads {s} w old v bs pos small fits h = (reads, moved)
  where
    e : length (le_bytes w v) ≡ w
    e = length-le_bytes w v

    moved : Reads (advance s w) bs
    moved = subst (λ (n : ℕ). Reads (advance s n) bs) e (advance-Reads (le_bytes w v) bs h)

    bound : s.read_ptr + w ≤ sock_buf_size
    bound = omega (arith, e, Reads-fits (le_bytes w v) bs h (omega (arith, e)))

    taken : take w (le_bytes w v ++ bs) ≡ le_bytes w v
    taken =
        subst (λ (n : ℕ). take n (le_bytes w v ++ bs) ≡ le_bytes w v) e
          (take-append_length (le_bytes w v) bs)

    reads : read_int w old s ≡ ok (v, advance s w)
    reads = rw (
      le→leb (s.offset + w) sock_buf_size (omega (arith, h.room)),
      le→leb (s.read_ptr + w) sock_buf_size bound,
      h.rest,
      taken,
      from_le-le_bytes w v fits,
    )

-- A character of a string that can be read back.
abbrev pub IsChar : ℕ → Type 0
IsChar c = (0 < c) × (c < 256)

string_end_lem :
    (value bs : List ℕ) (n : ℕ)
    → All IsChar value
    → string_end (value ++ 0 ∷ bs) n ≡ ok (n + (length value + 1))
unfolding string_end
string_end_lem [] bs n h = ap ok (omega arith)
string_end_lem (c ∷ value) bs n h = ground (arith, string_end_lem value bs (n + 1) h.1)

cons_split : (c : ℕ) (value bs : List ℕ) → c ∷ (value ++ 0 ∷ bs) ≡ ((c ∷ value) ++ 0 ∷ []) ++ bs
cons_split c value bs = ap (◌∷◌ c) (sym (append_assoc value (0 ∷ []) bs))

-- A non-empty string of characters other than NUL is read back.
pub read_str-Reads :
    {s : Stream} (c : ℕ) (value bs : List ℕ)
    → All IsChar value
    → Reads s (c ∷ (value ++ 0 ∷ bs))
    → (read_str s ≡ ok (c ∷ value, advance s (length value + 2)))
      × Reads (advance s (length value + 2)) bs
unfolding read_str
read_str-Reads {s} c value bs chars h = (reads, moved)
  where
    split : Reads s (((c ∷ value) ++ 0 ∷ []) ++ bs)
    split = rw (cons_split c value bs) at h

    e : length ((c ∷ value) ++ 0 ∷ []) ≡ length value + 2
    e = omega (arith, length-append value (0 ∷ []))

    moved : Reads (advance s (length value + 2)) bs
    moved =
        subst (λ (n : ℕ). Reads (advance s n) bs) e (advance-Reads ((c ∷ value) ++ 0 ∷ []) bs split)

    left : drop (s.read_ptr + 1) s.stream ≡ value ++ 0 ∷ bs
    left = drop_advance s.read_ptr s.stream (c ∷ []) (value ++ 0 ∷ bs) h.rest

    taken : take (length value + 1) (c ∷ (value ++ 0 ∷ bs)) ≡ c ∷ value
    taken =
        subst (λ (n : ℕ). take n (c ∷ (value ++ 0 ∷ bs)) ≡ c ∷ value) {x = length (c ∷ value)}
          (omega arith) (take-append_length (c ∷ value) (0 ∷ bs))

    reads : read_str s ≡ ok (c ∷ value, advance s (length value + 2))
    reads =
        rw (left, string_end_lem value bs 0 chars, h.rest, zero-add, taken)
          (ap (λ (n : ℕ). ok (c ∷ value, advance s n)) (omega arith))
