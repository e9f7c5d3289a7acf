-- ===== src/Execstream/Inverse.antt =====
-- What ReadFrame accepts is what WriteFrame writes.
use local_preview.Base.{
  ℕ, zero, suc, ◌/◌, ◌%◌, ◌^◌, ◌≤◌, ◌<◌, ◌≡◌, refl, sym, ◌∙◌, ap, [], ◌∷◌, ◌++◌, length, arith, All,
  ltb, not_ltb→ge, Bool-cases, inl, inr,
}
use local_preview.Execstream.{
  Bytes, Frame, Result, ok, err, unexpected_eof, max_payload, read_full, read_payload, read_frame,
  uint32, put_uint32, ◌>>=◌,
}
use local_preview.Execstream.Frames.{wire}
use local_preview.Execstream.Chunks.{FitsFrame}
use mathlib.Core.List.{append_assoc}

abbrev pub IsByte : ℕ → Type 0
IsByte b = b < 256

four_bytes :
    (a b c d : ℕ)
    → IsByte a
    → IsByte b
    → IsByte c
    → IsByte d
    → put_uint32 (uint32 a b c d) ≡ a ∷ b ∷ c ∷ d ∷ []
unfolding put_uint32
four_bytes a b c d ha hb hc hd =
    let n = uint32 a b c d in
    let ea : n / 2 ^ 24 % 256 ≡ a = omega arith in
    let eb : n / 2 ^ 16 % 256 ≡ b = omega arith in
    let ec : n / 2 ^ 8 % 256 ≡ c = omega arith in
    let ed : n % 256 ≡ d = omega arith in rw (ea, eb, ec, ed) refl

-- The bytes of `bs` are those that were taken and then the rest.
Splits : ℕ → Bytes → Result (Bytes × Bytes) → Type 0
Splits n bs (ok (p, rest)) = (bs ≡ p ++ rest) × (length p ≡ n)
Splits n bs (err e) = Unit

read_full-Splits : (n : ℕ) (bs : Bytes) → Splits n bs (read_full n bs)
unfolding read_full Splits
read_full-Splits zero bs = (refl, refl)
read_full-Splits (suc n) [] = tt
read_full-Splits (suc n) (b ∷ bs) = push (read_full n bs) (read_full-Splits n bs)
  where
    push :
        (r : Result (Bytes × Bytes))
        → Splits n bs r
        → Splits
            (suc n)
            (b ∷ bs)
            (elim r [ ok (taken, rest) ↦ ok (b ∷ taken, rest) | err e ↦ err unexpected_eof ])
    push (ok (p, rest)) h = (ap (λ (x : Bytes). b ∷ x) h.0, omega (arith, h.1))
    push (err e) h = tt

-- The bytes of `bs` are those of the frame and then the rest.
abbrev pub Accepts : Bytes → Result (Frame × Bytes) → Type 0
Accepts bs (ok (f, rest)) = (bs ≡ wire f.kind f.payload ++ rest) × FitsFrame f.payload
Accepts bs (err e) = Unit

payload-Accepts :
    (t a b c d : ℕ) (bs : Bytes)
    → IsByte a
    → IsByte b
    → IsByte c
    → IsByte d
    → uint32 a b c d ≤ max_payload
    → (r : Result (Bytes × Bytes)) → Splits (uint32 a b c d) bs r
    → Accepts
        (t ∷ a ∷ b ∷ c ∷ d ∷ bs)
        (r >>= λ (p, rest). ok (record { kind = t; payload = p }, rest))
unfolding Splits
payload-Accepts t a b c d bs ha hb hc hd cap (ok (p, rest)) (e, n) = (
  ap (λ (x : Bytes). t ∷ a ∷ b ∷ c ∷ d ∷ x) e
      ∙ ap (λ (x : Bytes). t ∷ x ++ (p ++ rest))
          (sym (four_bytes a b c d ha hb hc hd) ∙ ap put_uint32 (sym n))
      ∙ sym (append_assoc (t ∷ put_uint32 (length p)) p rest),
  omega (arith, n),
)
payload-Accepts t a b c d bs ha hb hc hd cap (err e) h = tt

-- On a stream of bytes, a frame that ReadFrame returns has a payload of at most MaxPayload, and what
-- was read are exactly the bytes that WriteFrame writes for it.
pub read_frame-Accepts : (bs : Bytes) → All IsByte bs → Accepts bs (read_frame bs)
unfolding read_frame read_full read_payload
read_frame-Accepts [] h = tt
read_frame-Accepts (t ∷ []) h = tt
read_frame-Accepts (t ∷ a ∷ []) h = tt
read_frame-Accepts (t ∷ a ∷ b ∷ []) h = tt
read_frame-Accepts (t ∷ a ∷ b ∷ c ∷ []) h = tt
read_frame-Accepts (t ∷ a ∷ b ∷ c ∷ d ∷ bs) (ht, (ha, (hb, (hc, (hd, h))))) =
    elim (Bool-cases (ltb max_payload (uint32 a b c d))) [
      | inl e ↦ rw e tt
      | inr e ↦ rw e (
          payload-Accepts t a b c d bs ha hb hc hd (not_ltb→ge _ _ e) _
            (read_full-Splits (uint32 a b c d) bs))
    ]
