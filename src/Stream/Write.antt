-- ===== src/Stream/Write.antt =====
-- Writing to a stream (`operator<<` of Stream.h), and what its array holds then.
use tcp_socket_chatting_serv.Base.{
  ℕ, zero, suc, ◌+◌, ◌-◌, ◌≤◌, ◌<◌, ◌≡◌, refl, ap, ◌∙◌, inl, inr, List, [], ◌∷◌, ◌++◌, append-nil,
  append_assoc, length, length-append, length-fill, length-take, length-drop, take, drop, fill,
  take-append_length, arith, leb, le→leb, lt→leb, Bool-cases, leb→le,
}
use tcp_socket_chatting_serv.Bytes.{le_bytes, length-le_bytes}
use tcp_socket_chatting_serv.Stream.{
  Stream, sock_buf_size, initialize, splice, write, write_int, write_chars, write_str,
}
use native.Mathlib.Nat.{zero-add}

-- The stream was written to, and `bs` is what it holds.
pub record Holds (s : Stream) (bs : List ℕ) : Type 0 where
  pub size : s.offset ≡ length bs
  pub bytes : s.stream ≡ bs ++ fill (sock_buf_size - length bs) 0
  pub fits : length bs ≤ sock_buf_size

pub initialize-Holds : Holds initialize []
unfolding initialize
initialize-Holds = record { size = refl; bytes = refl; fits = omega arith }

fill-drop : (n k : ℕ) → drop {A = ℕ} k (fill n 0) ≡ fill (n - k) 0
unfolding fill
fill-drop n zero = ap (λ (i : ℕ). fill i 0) (omega arith)
fill-drop zero (suc k) = let e : 0 ≡ 0 - suc k = omega arith in ap (λ (i : ℕ). fill i 0) e
fill-drop (suc n) (suc k) = let e : n - k ≡ suc n - suc k = omega arith in rw (← e) (fill-drop n k)

drop-append_fill : (bs : List ℕ) (n k : ℕ) → drop (length bs + k) (bs ++ fill n 0) ≡ fill (n - k) 0
drop-append_fill [] n k = rw zero-add (fill-drop n k)
drop-append_fill (b ∷ bs) n k = rw (shift (length bs) k) (drop-append_fill bs n k)
  where
    shift : (m j : ℕ) → suc m + j ≡ suc (m + j)
    shift m j = omega arith

splice-append :
    (bs cs : List ℕ)
    → splice (length bs) cs (bs ++ fill (sock_buf_size - length bs) 0)
      ≡ (bs ++ cs) ++ fill (sock_buf_size - length (bs ++ cs)) 0
unfolding splice
splice-append bs cs =
    rw
      (
        take-append_length bs (fill (sock_buf_size - length bs) 0),
        drop-append_fill bs (sock_buf_size - length bs) (length cs),
        append_assoc,
        length-append bs cs,
      )
      (ap (λ (i : ℕ). bs ++ (cs ++ fill i 0)) (omega arith))

module _ {s : Stream} {bs : List ℕ} where
  -- A write that fits the array appends.
  pub write-Holds :
      (cs : List ℕ)
      → Holds s bs
      → length bs + length cs ≤ sock_buf_size
      → Holds (write s cs) (bs ++ cs)
  unfolding write
  write-Holds cs h room = rw (le→leb (s.offset + length cs) sock_buf_size (omega arith)) (record {
    size = omega (arith, length-append bs cs);
    bytes = rw (h.size, h.bytes) (splice-append bs cs);
    fits = omega (arith, length-append bs cs);
  })

  -- A write that does not fit leaves the stream as it was.
  pub write_full :
      (cs : List ℕ) → Holds s bs → sock_buf_size < length bs + length cs → write s cs ≡ s
  unfolding write
  write_full cs h full = rw (lt→leb (s.offset + length cs) sock_buf_size (omega arith))

pub write_int-Holds :
    {s : Stream} {bs : List ℕ} (w v : ℕ)
    → Holds s bs
    → length bs + w ≤ sock_buf_size
    → Holds (write_int w v s) (bs ++ le_bytes w v)
unfolding write_int
write_int-Holds w v h room = write-Holds (le_bytes w v) h (omega (arith, length-le_bytes w v))

write_chars-Holds :
    {s : Stream} {bs : List ℕ} (value : List ℕ)
    → Holds s bs
    → length bs + length value ≤ sock_buf_size
    → Holds (write_chars value s) (bs ++ value)
unfolding write_chars
write_chars-Holds [] h room = rw append-nil h
write_chars-Holds {s} {bs} (ch ∷ value) h room = rw (← append_assoc bs (ch ∷ []) value) (
    write_chars-Holds {s = write s (ch ∷ [])} value (write-Holds (ch ∷ []) h (omega arith))
      (omega (arith, length-append bs (ch ∷ []))))

pub write_str-Holds :
    {s : Stream} {bs : List ℕ} (value : List ℕ)
    → Holds s bs
    → length bs + (length value + 1) ≤ sock_buf_size
    → Holds (write_str value s) (bs ++ (value ++ 0 ∷ []))
unfolding write_str
write_str-Holds {s} {bs} value h room = rw (← append_assoc bs value (0 ∷ [])) (
    write-Holds (0 ∷ []) (write_chars-Holds value h (omega arith))
      (omega (arith, length-append bs value)))

-- What any sequence of writes keeps: the array has its size, and the offset does not pass its end.
pub record IsBounded (s : Stream) : Type 0 where
  pub size : length s.stream ≡ sock_buf_size
  pub within : s.offset ≤ sock_buf_size

pub initialize-IsBounded : IsBounded initialize
unfolding initialize
initialize-IsBounded = record { size = length-fill sock_buf_size 0; within = omega arith }

pub length-splice :
    (at : ℕ) (bs xs : List ℕ) → at + length bs ≤ length xs → length (splice at bs xs) ≡ length xs
unfolding splice
length-splice at bs xs h = omega (
  arith,
  length-append (take at xs) (bs ++ drop (at + length bs) xs),
  length-append bs (drop (at + length bs) xs),
  length-take at xs (omega arith),
  length-drop (at + length bs) xs,
)

pub write-IsBounded : {s : Stream} (bs : List ℕ) → IsBounded s → IsBounded (write s bs)
unfolding write
write-IsBounded {s} bs b = elim (Bool-cases (leb (s.offset + length bs) sock_buf_size)) [
  | inl e ↦ rw e (record {
    size = length-splice s.offset bs s.stream (omega (arith, b.size, leb→le _ _ e)) ∙ b.size;
    within = leb→le _ _ e;
  })
  | inr e ↦ rw e b
]

pub write_int-IsBounded : {s : Stream} (w v : ℕ) → IsBounded s → IsBounded (write_int w v s)
unfolding write_int
write_int-IsBounded w v b = write-IsBounded (le_bytes w v) b

write_chars-IsBounded :
    {s : Stream} (value : List ℕ) → IsBounded s → IsBounded (write_chars value s)
unfolding write_chars
write_chars-IsBounded [] b = b
write_chars-IsBounded {s} (ch ∷ value) b =
    write_chars-IsBounded {s = write s (ch ∷ [])} value (write-IsBounded (ch ∷ []) b)

pub write_str-IsBounded :
    {s : Stream} (value : List ℕ) → IsBounded s → IsBounded (write_str value s)
unfolding write_str
write_str-IsBounded value b = write-IsBounded (0 ∷ []) (write_chars-IsBounded value b)

-- Copying to the front of a cleared array.
pub splice_front :
    (bs : List ℕ) → splice 0 bs (fill sock_buf_size 0) ≡ bs ++ fill (sock_buf_size - length bs) 0
splice_front bs = splice-append [] bs
