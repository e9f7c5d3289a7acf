-- ===== src/Execstream/Chunks.antt =====
-- How WriteFrame splits a payload over frames, and that its loop ends.
use local_preview.Base.{
  ℕ, zero, suc, ◌+◌, ◌/◌, ◌≤◌, ◌<◌, ◌≡◌, sym, ap, ◌∙◌, List, [], ◌∷◌, ◌++◌, length, take, drop,
  length-take, arith, inl, inr, All, Bool-cases, ltb, ltb→lt, not_ltb→ge,
}
use local_preview.Execstream.{Bytes, Sent, sent, write_chunk, write_loop, write_frame, max_payload}
use local_preview.Execstream.Frames.{
  wire, append_to, write_chunk_short, write_chunk_long, append-take-drop, length-drop,
}
use mathlib.Core.List.{append_assoc, append-nil}

-- The bytes of frames of one type, one after the other.
unfoldable pub wires : ℕ → List Bytes → Bytes
wires t [] = []
wires t (c ∷ cs) = wire t c ++ wires t cs

abbrev pub flat : List Bytes → Bytes
flat [] = []
flat (c ∷ cs) = c ++ flat cs

abbrev pub FitsFrame : Bytes → Type 0
FitsFrame c = length c ≤ max_payload

-- `r` appends to `w` frames of the type that carry `p` between them, no more than `n` and at least one.
abbrev pub CarriedBy : ℕ → Bytes → Bytes → ℕ → Sent Bytes → Type 0
CarriedBy t p w n r =
    (cs : List Bytes) × (r ≡ sent (w ++ wires t cs))
    × (flat cs ≡ p)
    × All FitsFrame cs
    × (1 ≤ length cs)
    × (length cs ≤ n)

shorter :
    (p : Bytes) (f : ℕ)
    → max_payload < length p
    → length p / max_payload ≤ f
    → (length (drop max_payload p) / max_payload) + 1 ≤ f
shorter p f h e = omega (arith, length-drop max_payload p)

one_frame :
    (t : ℕ) (p w : Bytes) (n : ℕ) (next : Bytes → Bytes → Sent Bytes)
    → length p ≤ max_payload
    → CarriedBy t p w (suc n) (write_chunk append_to t p w next)
unfolding wires
one_frame t p w n next h = (
  p ∷ [],
  write_chunk_short t p w next h ∙ ap (λ (x : Bytes). sent (w ++ x)) (sym (append-nil (wire t p))),
  append-nil p,
  (h, tt),
  omega arith,
  omega arith,
)

one_more :
    (t : ℕ) (p w : Bytes) (n : ℕ) (next : Bytes → Bytes → Sent Bytes)
    → max_payload < length p
    → (CarriedBy t
        (drop max_payload p)
        (w ++ wire t (take max_payload p))
        n
        (next (drop max_payload p) (w ++ wire t (take max_payload p))))
    → CarriedBy t p w (suc n) (write_chunk append_to t p w next)
unfolding wires
one_more t p w n next h (cs, e, f, all, lo, hi) =
    let head = take max_payload p in
    (
      head ∷ cs,
      write_chunk_long t p w next h
          ∙ e
          ∙ ap (λ (x : Bytes). sent x) (append_assoc w (wire t head) (wires t cs)),
      ap (λ (x : Bytes). head ++ x) f ∙ append-take-drop max_payload p,
      (omega (arith, length-take max_payload p), all),
      omega arith,
      omega arith,
    )

write_loop-CarriedBy :
    (f t : ℕ) (p w : Bytes)
    → length p / max_payload ≤ f
    → CarriedBy t p w (suc f) (write_loop append_to (suc f) t p w)
unfolding write_loop
write_loop-CarriedBy zero t p w h = one_frame t p w zero _ (omega arith)
write_loop-CarriedBy (suc f) t p w h = elim (Bool-cases (ltb max_payload (length p))) [
  | inr e ↦ one_frame t p w (suc f) _ (not_ltb→ge _ _ e)
  | inl e ↦
      let over = ltb→lt _ _ e in
      one_more t p w (suc f) _ over (
        write_loop-CarriedBy f t (drop max_payload p) (w ++ wire t (take max_payload p))
          (omega (arith, shorter p (suc f) over h)))
]

-- Into a writer that loses nothing, WriteFrame ends without error for every payload p: it appends one
-- or more frames of the type, at most 1 + length p / MaxPayload, each with a payload of at most
-- MaxPayload bytes, and the payloads together are p.
pub write_frame-CarriedBy :
    (t : ℕ) (p w : Bytes)
    → CarriedBy t p w (suc (length p / max_payload)) (write_frame append_to t p w)
unfolding write_frame
write_frame-CarriedBy t p w = write_loop-CarriedBy (length p / max_payload) t p w (omega arith)
