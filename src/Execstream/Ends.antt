-- ===== src/Execstream/Ends.antt =====
-- The loops of WriteFrame and of the input pump end, whatever the writer and the stream do.
use local_preview.Base.{
  ℕ, zero, suc, ◌/◌, ◌≤◌, ◌<◌, ◌≡◌, ◌≢◌, [], ◌∷◌, Bool, true, false, length, drop, length-take,
  arith, ltb, ltb→lt, not_ltb→ge, Bool-cases, inl, inr, ◌+◌, ap,
}
use local_preview.Execstream.{
  Bytes, Sent, sent, stuck, write_chunk, write_loop, write_frame, write_some, then_send,
  max_payload, put_uint32, chunk_of,
}
use local_preview.Execstream.Frames.{length-drop, chunk_of_short, chunk_of_long}

module _ {ℓ} {W : Type ℓ} (write : W → Bytes → W × Bool) where
  then_send-ne-stuck :
      (r : W × Bool) (next : W → Sent W)
      → ((w : W) → next w ≢ stuck)
      → then_send write r next ≢ stuck
  then_send-ne-stuck (w, true) next h = h w
  then_send-ne-stuck (w, false) next h = λ e. cc

  rest-ne-stuck :
      (left : Bytes) (v : W) (next : Bytes → W → Sent W)
      → (0 < length left → (u : W) → next left u ≢ stuck)
      → elim left [ [] ↦ sent v | b ∷ bs ↦ next (b ∷ bs) v ] ≢ stuck
  rest-ne-stuck [] v next h = λ e. cc
  rest-ne-stuck (b ∷ bs) v next h = h (omega arith) v

  length-chunk_of :
      (p : Bytes) → ltb max_payload (length p) ≡ true → length (chunk_of p) ≡ max_payload
  length-chunk_of p e =
      omega
        (arith, ap length (chunk_of_long p (ltb→lt _ _ e)), length-take max_payload p, ltb→lt _ _ e)

  left_after :
      (p : Bytes)
      → 0 < length (drop (length (chunk_of p)) p)
      → max_payload + length (drop (length (chunk_of p)) p) ≡ length p
  left_after p h = elim (Bool-cases (ltb max_payload (length p))) [
    | inl e ↦ omega (arith, length-chunk_of p e, length-drop (length (chunk_of p)) p, ltb→lt _ _ e)
    | inr e ↦ absurd (
        omega (
          arith,
          h,
          length-drop (length (chunk_of p)) p,
          ap length (chunk_of_short p (not_ltb→ge _ _ e)),
        ))
  ]

  write_chunk-ne-stuck :
      (t : ℕ) (p : Bytes) (w : W) (next : Bytes → W → Sent W)
      → (0 < length (drop (length (chunk_of p)) p)
          → (u : W) → next (drop (length (chunk_of p)) p) u ≢ stuck)
      → write_chunk write t p w next ≢ stuck
  unfolding write_chunk
  write_chunk-ne-stuck t p w next h =
      let chunk = chunk_of p in
      then_send-ne-stuck (write w (t ∷ put_uint32 (length chunk))) _ λ u.
        then_send-ne-stuck (write_some write u chunk) _
          λ v. rest-ne-stuck (drop (length chunk) p) v next h

  write_loop-ne-stuck :
      (f t : ℕ) (p : Bytes) (w : W)
      → length p / max_payload ≤ f
      → write_loop write (suc f) t p w ≢ stuck
  unfolding write_loop
  write_loop-ne-stuck zero t p w h =
      write_chunk-ne-stuck t p w _ λ more u. absurd (omega (arith, left_after p more))
  write_loop-ne-stuck (suc f) t p w h = write_chunk-ne-stuck t p w _ λ more u.
      write_loop-ne-stuck f t (drop (length (chunk_of p)) p) u (omega (arith, left_after p more))

  -- Whatever the underlying writer does, WriteFrame returns: it sends the payload or it fails.
  pub write_frame-ne-stuck : (t : ℕ) (p : Bytes) (w : W) → write_frame write t p w ≢ stuck
  unfolding write_frame
  write_frame-ne-stuck t p w = write_loop-ne-stuck (length p / max_payload) t p w (omega arith)
