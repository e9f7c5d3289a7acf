-- ===== src/Execstream/Loop.antt =====
-- The loop that both ends of an exec session run: read a frame, act on its type, go on or return.
use local_preview.Base.{ℕ, zero, suc, ◌+◌, ◌≤◌, ◌<◌, ◌≡◌, ◌≢◌, refl, [], ◌∷◌, length, arith}
use local_preview.Execstream.{
  Bytes, Frame, Result, ok, err, StreamError, read_full, read_payload, read_frame, ◌>>=◌, uint32,
}

-- What the switch on a frame does: the next round starts in the state, or the loop returns.
pub data Turn {ℓ κ} (S : Type ℓ) (R : Type κ) : Type (ℓ ⊔ κ) where
  go : S → Turn S R
  stop : R → Turn S R

-- `stuck` is no value of the code: the loop ran out of fuel.
pub data Run {κ} (R : Type κ) : Type κ where
  returned : R → Run R
  stuck : Run R

-- A successful read took `k` bytes at least of `n`.
abbrev Takes {ℓ} : {A : Type ℓ} → ℕ → ℕ → Result (A × Bytes) → Type 0
Takes k n (ok (x, rest)) = length rest + k ≤ n
Takes k n (err e) = Unit

Takes-bind {ℓ κ} :
    {A : Type ℓ} {B : Type κ} (k n : ℕ) (r : Result (A × Bytes))
    (f : A → Bytes → Result (B × Bytes))
    → Takes k n r
    → ((a : A) (rest : Bytes) → Takes 0 (length rest) (f a rest))
    → Takes k n (r >>= λ (a, rest). f a rest)
Takes-bind {B = B} k n (ok (a, rest)) f h g = below (f a rest) (g a rest)
  where
    below : (s : Result (B × Bytes)) → Takes 0 (length rest) s → Takes k n s
    below (ok (b, last)) t = omega arith
    below (err e) t = tt
Takes-bind k n (err e) f h g = tt

read_full-Takes : (n : ℕ) (bs : Bytes) → Takes n (length bs) (read_full n bs)
unfolding read_full
read_full-Takes zero bs = omega arith
read_full-Takes (suc n) [] = tt
read_full-Takes (suc n) (b ∷ bs) = ground (arith, read_full-Takes n bs)

read_payload-Takes : (h bs : Bytes) → Takes 0 (length bs) (read_payload h bs)
unfolding read_payload
read_payload-Takes (t ∷ a ∷ b ∷ c ∷ d ∷ []) bs = ground (arith, read_full-Takes (uint32 a b c d) bs)
read_payload-Takes _ bs = tt

read_frame-Takes : (bs : Bytes) → Takes 5 (length bs) (read_frame bs)
unfolding read_frame
read_frame-Takes bs =
    Takes-bind 5 (length bs) (read_full 5 bs) read_payload (read_full-Takes 5 bs) read_payload-Takes

module _ {ℓ κ} {S : Type ℓ} {R : Type κ} (broken : StreamError → S → R)
    (handle : Frame → S → Turn S R) where
  abbrev pub after_turn : Turn S R → (S → Run R) → Run R
  after_turn (go s) next = next s
  after_turn (stop r) next = returned r

  abbrev pub after_read : Result (Frame × Bytes) → S → (Bytes → S → Run R) → Run R
  after_read (err e) s next = returned (broken e s)
  after_read (ok (f, rest)) s next = after_turn (handle f s) (next rest)

  unfoldable pub read_loop : ℕ → Bytes → S → Run R
  read_loop zero bs s = stuck
  read_loop (suc fuel) bs s = after_read (read_frame bs) s (read_loop fuel)

  -- Each frame takes five bytes at least, so the length of the stream bounds the rounds.
  unfoldable pub read_frames : Bytes → S → Run R
  read_frames bs s = read_loop (suc (length bs)) bs s

  after_read-ext :
      (r : Result (Frame × Bytes)) (s : S) (n : ℕ) (f g : Bytes → S → Run R)
      → Takes 5 n r
      → ((bs : Bytes) (u : S) → length bs < n → f bs u ≡ g bs u)
      → after_read r s f ≡ after_read r s g
  after_read-ext (err e) s n f g t h = refl
  after_read-ext (ok (fr, rest)) s n f g t h = turn (handle fr s)
    where
      turn : (t : Turn S R) → after_turn t (f rest) ≡ after_turn t (g rest)
      turn (go u) = h rest u (omega arith)
      turn (stop r) = refl

  -- More fuel than there are bytes makes no difference.
  read_loop_fuel :
      (f g : ℕ) (bs : Bytes) (s : S)
      → length bs < f
      → length bs < g
      → read_loop f bs s ≡ read_loop g bs s
  unfolding read_loop
  read_loop_fuel zero g bs s hf hg = absurd (omega arith)
  read_loop_fuel (suc f) zero bs s hf hg = absurd (omega arith)
  read_loop_fuel (suc f) (suc g) bs s hf hg =
      after_read-ext (read_frame bs) s (length bs) (read_loop f) (read_loop g) (read_frame-Takes bs)
        λ rest u h. read_loop_fuel f g rest u (omega arith) (omega arith)

  pub read_frames_step :
      (bs : Bytes) (s : S) → read_frames bs s ≡ after_read (read_frame bs) s read_frames
  unfolding read_frames read_loop
  read_frames_step bs s =
      after_read-ext (read_frame bs) s (length bs) _ _ (read_frame-Takes bs) λ rest u h.
        read_loop_fuel (length bs) (suc (length rest)) rest u (omega arith) (omega arith)

  after_read-ne-stuck :
      (r : Result (Frame × Bytes)) (s : S) (n : ℕ) (f : Bytes → S → Run R)
      → Takes 5 n r
      → ((bs : Bytes) (u : S) → length bs < n → f bs u ≢ stuck)
      → after_read r s f ≢ stuck
  after_read-ne-stuck (err e) s n f t h = λ p. cc
  after_read-ne-stuck (ok (fr, rest)) s n f t h = turn (handle fr s)
    where
      turn : (t : Turn S R) → after_turn t (f rest) ≢ stuck
      turn (go u) = h rest u (omega arith)
      turn (stop r) = λ p. cc

  read_loop-ne-stuck : (f : ℕ) (bs : Bytes) (s : S) → length bs < f → read_loop f bs s ≢ stuck
  unfolding read_loop
  read_loop-ne-stuck zero bs s h = absurd (omega arith)
  read_loop-ne-stuck (suc f) bs s h =
      after_read-ne-stuck (read_frame bs) s (length bs) (read_loop f) (read_frame-Takes bs)
        λ rest u h'. read_loop-ne-stuck f rest u (omega arith)

  -- Whatever bytes arrive and whatever the switch does, the loop returns.
  pub read_frames-ne-stuck : (bs : Bytes) (s : S) → read_frames bs s ≢ stuck
  unfolding read_frames
  read_frames-ne-stuck bs s = read_loop-ne-stuck (suc (length bs)) bs s (omega arith)
