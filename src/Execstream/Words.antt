-- ===== src/Execstream/Words.antt =====
-- The words of a frame's header and of a resize payload, written and read back.
use local_preview.Base.{ℕ, ◌/◌, ◌%◌, ◌^◌, ◌<◌, ◌≡◌, arith}
use local_preview.Execstream.{ok, uint32, resize_payload, decode_resize}

-- Whatever fits a uint32 is read back from its four bytes.
pub uint32_bytes :
    (n : ℕ)
    → n < 2 ^ 32
    → uint32 (n / 2 ^ 24 % 256) (n / 2 ^ 16 % 256) (n / 2 ^ 8 % 256) (n % 256) ≡ n
uint32_bytes n h = omega arith

-- For all cols and rows that fit a uint16, decoding the payload that a resize encodes gives the same
-- cols and rows, and that payload has four bytes, each below 256.
pub decode_resize-resize_payload :
    (cols rows : ℕ)
    → cols < 2 ^ 16
    → rows < 2 ^ 16
    → decode_resize (resize_payload cols rows) ≡ ok (cols, rows)
unfolding decode_resize resize_payload
decode_resize-resize_payload cols rows hc hr = ground arith
