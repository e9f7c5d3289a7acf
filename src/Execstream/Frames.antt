-- ===== src/Execstream/Frames.antt =====
-- What WriteFrame puts on a stream, and what ReadFrame takes off it.
use local_preview.Base.{
  ℕ, zero, suc, ◌-◌, ◌≤◌, ◌<◌, ◌≡◌, refl, sym, ap, ◌∙◌, [], ◌∷◌, ◌++◌, Bool, true, length, take,
  drop, length-take, arith, ge→not_ltb, lt→ltb,
}
use local_preview.Execstream.{
  Bytes, ok, read_full, read_payload, read_frame, Sent, sent, write_chunk, write_some, then_send,
  max_payload, chunk_of, put_uint32,
}
use local_preview.Execstream.Words.{uint32_bytes}
use mathlib.Core.List.{append_assoc, append-nil}

pub read_full-append : (p rest : Bytes) → read_full (length p) (p ++ rest) ≡ ok (p, rest)
unfolding read_full
read_full-append [] rest = refl
read_full-append (b ∷ p) rest = rw (read_full-append p rest) refl

-- The bytes of one frame on the stream.
abbrev pub wire : ℕ → Bytes → Bytes
wire t p = (t ∷ put_uint32 (length p)) ++ p

pub read_frame-wire :
    (t : ℕ) (p rest : Bytes)
    → length p ≤ max_payload
    → read_frame (wire t p ++ rest) ≡ ok (record { kind = t; payload = p }, rest)
unfolding read_frame read_full read_payload put_uint32
read_frame-wire t p rest h =
    rw (uint32_bytes (length p) (omega arith)) (rw (read_full-append p rest) (ground arith))

-- A writer that loses nothing.
abbrev pub append_to : Bytes → Bytes → Bytes × Bool
append_to w bs = (w ++ bs, true)

then_send-write_some :
    (w p : Bytes) (next : Bytes → Sent Bytes)
    → then_send append_to (write_some append_to w p) next ≡ next (w ++ p)
then_send-write_some w [] next = ap next (sym (append-nil w))
then_send-write_some w (b ∷ p) next = refl

pub drop-length : (p : Bytes) → drop (length p) p ≡ []
drop-length [] = refl
drop-length (b ∷ p) = drop-length p

pub length-drop : (n : ℕ) (p : Bytes) → length (drop n p) ≡ length p - n
length-drop zero p = omega arith
length-drop (suc n) [] = omega arith
length-drop (suc n) (b ∷ p) = omega (arith, length-drop n p)

pub append-take-drop : (n : ℕ) (p : Bytes) → take n p ++ drop n p ≡ p
append-take-drop zero p = refl
append-take-drop (suc n) [] = refl
append-take-drop (suc n) (b ∷ p) = ap (λ (x : Bytes). b ∷ x) (append-take-drop n p)

pub chunk_of_short : (p : Bytes) → length p ≤ max_payload → chunk_of p ≡ p
chunk_of_short p h = rw (ge→not_ltb max_payload (length p) h) refl

pub chunk_of_long : (p : Bytes) → max_payload < length p → chunk_of p ≡ take max_payload p
chunk_of_long p h = rw (lt→ltb max_payload (length p) h) refl

header_then :
    (t n : ℕ) (w p : Bytes) → (w ++ t ∷ put_uint32 n) ++ p ≡ w ++ ((t ∷ put_uint32 n) ++ p)
header_then t n w p = append_assoc w (t ∷ put_uint32 n) p

pub write_chunk_short :
    (t : ℕ) (p w : Bytes) (next : Bytes → Bytes → Sent Bytes)
    → length p ≤ max_payload
    → write_chunk append_to t p w next ≡ sent (w ++ wire t p)
unfolding write_chunk
write_chunk_short t p w next h =
    rw (chunk_of_short p h, then_send-write_some, drop-length p, header_then t (length p) w p) refl

-- A payload that is not used up goes round again.
left_over :
    (left v : Bytes) (next : Bytes → Bytes → Sent Bytes)
    → 0 < length left
    → elim left [ [] ↦ sent v | b ∷ bs ↦ next (b ∷ bs) v ] ≡ next left v
left_over [] v next h = absurd (omega arith)
left_over (b ∷ left) v next h = refl

pub write_chunk_long :
    (t : ℕ) (p w : Bytes) (next : Bytes → Bytes → Sent Bytes)
    → max_payload < length p
    → write_chunk append_to t p w next
      ≡ next (drop max_payload p) (w ++ wire t (take max_payload p))
unfolding write_chunk
write_chunk_long t p w next h =
    let head = take max_payload p in
    let n : length head ≡ max_payload = omega (arith, length-take max_payload p) in
    let v = (w ++ t ∷ put_uint32 (length head)) ++ head in
    let size : 0 < length (drop (length head) p) = omega (arith, length-drop (length head) p, n) in
    rw (chunk_of_long p h, then_send-write_some)
      (left_over (drop (length head) p) v next size
        ∙ ap (λ (k : ℕ). next (drop k p) v) n
        ∙ ap (next (drop max_payload p)) (header_then t (length head) w head))
