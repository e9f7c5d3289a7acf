-- ===== src/Execstream/Conveys.antt =====
-- What one end writes with WriteFrame, as the loop at the other end reads it.
use local_preview.Base.{ℕ, ◌≤◌, ◌≡◌, refl, subst, ◌∙◌, ap, List, [], ◌∷◌, ◌++◌, length, All}
use local_preview.Execstream.{
  Bytes, Frame, Result, StreamError, max_payload, Sent, sent, failed, stuck, write_frame,
  write_loop,
}
use local_preview.Execstream.Frames.{wire, read_frame-wire, append_to, write_chunk_short}
use local_preview.Execstream.Chunks.{wires, flat, FitsFrame, write_frame-CarriedBy}
use local_preview.Execstream.Loop.{Turn, go, after_read, after_turn, read_frames, read_frames_step}
use mathlib.Core.List.{append_assoc}

pub write_frame_short :
    (t : ℕ) (p w : Bytes)
    → length p ≤ max_payload
    → write_frame append_to t p w ≡ sent (w ++ wire t p)
unfolding write_frame write_loop
write_frame_short t p w h = write_chunk_short t p w _ h

-- `view` is the part of the reader's state that is spoken of.
module _ {ℓ κ ι} {S : Type ℓ} {R : Type κ} {V : Type ι} (broken : StreamError → S → R)
    (handle : Frame → S → Turn S R) (view : S → V) where
  pub read_frames-wire :
      (t : ℕ) (p rest : Bytes) (s : S)
      → length p ≤ max_payload
      → read_frames broken handle (wire t p ++ rest) s
        ≡ after_turn broken handle
            (handle (record { kind = t; payload = p }) s)
            (read_frames broken handle rest)
  read_frames-wire t p rest s h =
      read_frames_step broken handle (wire t p ++ rest) s
      ∙ ap
          (λ (r : Result (Frame × Bytes)). after_read broken handle r s (read_frames broken handle))
          (read_frame-wire t p rest h)

  -- The reader takes the bytes and goes on in a state whose view is `f` of the one before.
  abbrev pub Moves : Bytes → (V → V) → Type (ℓ ⊔ κ ⊔ ι)
  Moves bs f =
      (rest : Bytes) (s : S)
      → (u : S) × (read_frames broken handle (bs ++ rest) s ≡ read_frames broken handle rest u)
        × (view u ≡ f (view s))

  -- `r` is what a writer of `w` became by appending bytes that move the reader by `f`.
  abbrev pub Conveys : Bytes → Sent Bytes → (V → V) → Type (ℓ ⊔ κ ⊔ ι)
  Conveys w r f = (bs : Bytes) × (r ≡ sent (w ++ bs)) × Moves bs f

  -- The frame is not the last: the switch goes on, and moves the view by `f`.
  abbrev pub Absorbs : Frame → (V → V) → Type (ℓ ⊔ κ ⊔ ι)
  Absorbs fr f = (s : S) → (u : S) × (handle fr s ≡ go u) × (view u ≡ f (view s))

  wire-Moves :
      (t : ℕ) (p : Bytes) (f : V → V)
      → length p ≤ max_payload
      → Absorbs (record { kind = t; payload = p }) f
      → Moves (wire t p) f
  wire-Moves t p f h a rest s =
      let (u, e, v) = a s in
      (
        u,
        read_frames-wire t p rest s h
            ∙ ap (λ (x : Turn S R). after_turn broken handle x (read_frames broken handle rest)) e,
        v,
      )

  Moves-append :
      (xs bs : Bytes) (f g h : V → V)
      → Moves xs f
      → Moves bs g
      → ((v : V) → g (f v) ≡ h v)
      → Moves (xs ++ bs) h
  Moves-append xs bs f g h ma mb e rest s =
      let (u, p, v) = ma (bs ++ rest) s in
      let (x, q, w) = mb rest u in
      (
        x,
        ap (λ (b : Bytes). read_frames broken handle b s) (append_assoc xs bs rest) ∙ p ∙ q,
        w ∙ ap g v ∙ e (view s),
      )

  wires-Moves :
      (t : ℕ) (absorb : Bytes → V → V)
      → ((v : V) → v ≡ absorb [] v)
      → ((a b : Bytes) (v : V) → absorb b (absorb a v) ≡ absorb (a ++ b) v)
      → ((c : Bytes) → FitsFrame c → Absorbs (record { kind = t; payload = c }) (absorb c))
      → (cs : List Bytes) → All FitsFrame cs
      → Moves (wires t cs) (absorb (flat cs))
  unfolding wires
  wires-Moves t absorb none_is more a [] h = λ rest s. (s, refl, none_is (view s))
  wires-Moves t absorb none_is more a (c ∷ cs) h =
      Moves-append (wire t c) (wires t cs) (absorb c) (absorb (flat cs)) (absorb (c ++ flat cs))
        (wire-Moves t c (absorb c) h.0 (a c h.0)) (wires-Moves t absorb none_is more a cs h.1)
        (more c (flat cs))

  -- A payload of any length, for frames that the reader joins up.
  pub write_frame-Conveys :
      (t : ℕ) (absorb : Bytes → V → V)
      → ((v : V) → v ≡ absorb [] v)
      → ((a b : Bytes) (v : V) → absorb b (absorb a v) ≡ absorb (a ++ b) v)
      → ((c : Bytes) → FitsFrame c → Absorbs (record { kind = t; payload = c }) (absorb c))
      → (p w : Bytes) → Conveys w (write_frame append_to t p w) (absorb p)
  write_frame-Conveys t absorb none_is more a p w =
      let (cs, e, f, all, _, _) = write_frame-CarriedBy t p w in
      (
        wires t cs,
        e,
        subst (λ (x : Bytes). Moves (wires t cs) (absorb x)) f
            (wires-Moves t absorb none_is more a cs all),
      )

  -- A payload that fits one frame.
  pub write_short-Conveys :
      (t : ℕ) (p w : Bytes) (f : V → V)
      → length p ≤ max_payload
      → Absorbs (record { kind = t; payload = p }) f
      → Conveys w (write_frame append_to t p w) f
  write_short-Conveys t p w f h a = (wire t p, write_frame_short t p w h, wire-Moves t p f h a)

  pub Conveys-then :
      (w : Bytes) (r : Sent Bytes) (next broke : Bytes → Sent Bytes) (f g : V → V)
      → Conveys w r f
      → ((v : Bytes) → Conveys v (next v) g)
      → Conveys w (elim r [ sent v ↦ next v | failed v ↦ broke v | stuck ↦ stuck ]) (λ v. g (f v))
  Conveys-then w r next broke f g (xs, e, m) h =
      let (bs, d, n) = h (w ++ xs) in
      (
        xs ++ bs,
        ap (λ (x : Sent Bytes). elim x [ sent v ↦ next v | failed v ↦ broke v | stuck ↦ stuck ]) e
            ∙ d
            ∙ ap (λ (x : Bytes). sent x) (append_assoc w xs bs),
        Moves-append xs bs f g (λ v. g (f v)) m n λ v. refl,
      )
