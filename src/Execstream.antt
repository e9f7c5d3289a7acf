-- ===== src/Execstream.antt =====
-- internal/execstream/execstream.go: the frames of an exec session. A byte is a number below 256,
-- and a stream is the list of the bytes that wait to be read.
pub mod Pump
pub mod Loop
pub mod Words
mod Chunks
mod Ends
pub mod Conveys
pub mod Frames
pub mod Client
mod Messages
mod Outputs
mod Inverse
mod Examples
use local_preview.Base.{
  ℕ, zero, suc, ◌+◌, ◌*◌, ◌/◌, ◌%◌, ◌^◌, List, [], ◌∷◌, Bool, true, false, ltb, ◌==◌, if◌then◌else◌,
  length, take, drop,
}

abbrev pub Bytes : Type 0
Bytes = List ℕ

abbrev pub stdin_frame : ℕ
stdin_frame = 1

abbrev pub stdout_frame : ℕ
stdout_frame = 2

abbrev pub stderr_frame : ℕ
stderr_frame = 3

abbrev pub exit_frame : ℕ
exit_frame = 4

abbrev pub resize_frame : ℕ
resize_frame = 5

abbrev pub stdin_eof_frame : ℕ
stdin_eof_frame = 6

abbrev pub error_frame : ℕ
error_frame = 7

abbrev pub ping_frame : ℕ
ping_frame = 8

abbrev pub max_payload : ℕ
max_payload = 2 ^ 20

pub record Frame : Type 0 where
  pub kind : ℕ
  pub payload : Bytes

-- io.EOF, io.ErrUnexpectedEOF and the two errors of the package itself.
pub data StreamError : Type 0 where
  eof unexpected_eof : StreamError
  exceeds_cap : ℕ → StreamError
  bad_resize : ℕ → StreamError

pub data Result {ℓ} (A : Type ℓ) : Type ℓ where
  ok : A → Result A
  err : StreamError → Result A

infixl 5 ◌>>=◌
abbrev pub ◌>>=◌ {ℓ κ} : {A : Type ℓ} {B : Type κ} → Result A → (A → Result B) → Result B
ok a >>= f = f a
err e >>= f = err e

-- binary.BigEndian.PutUint32 and Uint32
unfoldable pub put_uint32 : ℕ → Bytes
put_uint32 n = n / 2 ^ 24 % 256 ∷ n / 2 ^ 16 % 256 ∷ n / 2 ^ 8 % 256 ∷ n % 256 ∷ []

abbrev pub uint32 : ℕ → ℕ → ℕ → ℕ → ℕ
uint32 a b c d = a * 2 ^ 24 + b * 2 ^ 16 + c * 2 ^ 8 + d

-- binary.BigEndian.PutUint16 and Uint16
abbrev pub put_uint16 : ℕ → ℕ → ℕ
put_uint16 at n = n / 2 ^ at % 256

abbrev pub uint16 : ℕ → ℕ → ℕ
uint16 a b = a * 2 ^ 8 + b

unfoldable pub read_full : ℕ → Bytes → Result (Bytes × Bytes)
read_full zero bs = ok ([], bs)
read_full (suc n) [] = err eof
read_full (suc n) (b ∷ bs) = elim (read_full n bs) [
  | ok (taken, rest) ↦ ok (b ∷ taken, rest)
  | err e ↦ err unexpected_eof
]

unfoldable pub read_payload : Bytes → Bytes → Result (Frame × Bytes)
read_payload (t ∷ a ∷ b ∷ c ∷ d ∷ []) bs =
    let n = uint32 a b c d in
    if ltb max_payload n
    then err (exceeds_cap n)
    else (read_full n bs >>= λ (payload, rest). ok (record { kind = t; payload = payload }, rest))
read_payload _ bs = err unexpected_eof

unfoldable pub read_frame : Bytes → Result (Frame × Bytes)
read_frame bs = read_full 5 bs >>= λ (header, rest). read_payload header rest

-- How a write ends, with what the underlying writer became. `stuck` is no value of the code: the
-- loop ran out of fuel.
pub data Sent {ℓ} (W : Type ℓ) : Type ℓ where
  sent : W → Sent W
  failed : W → Sent W
  stuck : Sent W

abbrev pub chunk_of : Bytes → Bytes
chunk_of payload = if ltb max_payload (length payload) then take max_payload payload else payload

-- The underlying writer: what a Write does to it, and whether it succeeded.
module _ {ℓ} {W : Type ℓ} (write : W → Bytes → W × Bool) where
  abbrev pub then_send : W × Bool → (W → Sent W) → Sent W
  then_send (w, true) next = next w
  then_send (w, false) next = failed w

  abbrev pub write_some : W → Bytes → W × Bool
  write_some w [] = (w, true)
  write_some w (b ∷ bs) = write w (b ∷ bs)

  -- The round of the loop; `next` goes on with what is left of the payload.
  unfoldable pub write_chunk : ℕ → Bytes → W → (Bytes → W → Sent W) → Sent W
  write_chunk t payload w next =
      let chunk = chunk_of payload in
      let left = drop (length chunk) payload in
      then_send (write w (t ∷ put_uint32 (length chunk))) λ u.
        then_send (write_some u chunk) λ v. elim left [ [] ↦ sent v | b ∷ bs ↦ next (b ∷ bs) v ]

  unfoldable pub write_loop : ℕ → ℕ → Bytes → W → Sent W
  write_loop zero t payload w = stuck
  write_loop (suc fuel) t payload w = write_chunk t payload w (write_loop fuel t)

  unfoldable pub write_frame : ℕ → Bytes → W → Sent W
  write_frame t payload w = write_loop (suc (length payload / max_payload)) t payload w

unfoldable pub resize_payload : ℕ → ℕ → Bytes
resize_payload cols rows =
    put_uint16 8 cols ∷ put_uint16 0 cols ∷ put_uint16 8 rows ∷ put_uint16 0 rows ∷ []

unfoldable pub decode_resize : Bytes → Result (ℕ × ℕ)
decode_resize (a ∷ b ∷ c ∷ d ∷ []) = ok (uint16 a b, uint16 c d)
decode_resize p = err (bad_resize (length p))
