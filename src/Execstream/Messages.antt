-- ===== src/Execstream/Messages.antt =====
-- The two directions of an exec session, from one end's calls to the other end's effects.
use local_preview.Base.{
  ℕ, ◌<◌, ◌≡◌, refl, sym, subst, ◌∙◌, ap, List, [], ◌∷◌, ◌++◌, arith, All, Bool, true, ◌^◌,
}
use local_preview.Execstream.{Bytes, Result, sent, resize_payload, read_frame, read_full}
use local_preview.Execstream.Words.{decode_resize-resize_payload}
use local_preview.Execstream.Frames.{append_to}
use local_preview.Execstream.Loop.{go, returned, read_frames, read_frames_step}
use local_preview.Execstream.Conveys.{
  Conveys, Absorbs, write_frame-Conveys, write_short-Conveys, Conveys-then,
}
use local_preview.Execstream.Pump.{
  Attached, handle_input, input_ends, pump_input, close_input, resize_with, after_input,
}
use local_preview.Execstream.Client.{
  Message, typed, input_closed, resized, keep_alive, send_message, send_messages,
}
use mathlib.Core.List.{append_assoc, append-nil}

-- What the executed command sees of a connection: its input, whether it ended, and the sizes that
-- its terminal was given.
pub record Seen : Type 0 where
  pub input : Bytes
  pub at_end : Bool
  pub sizes : List (ℕ × ℕ)

unfoldable pub type_in : Bytes → Seen → Seen
type_in p v = record v { input = v.input ++ p }

unfoldable pub resize_to : ℕ → ℕ → Seen → Seen
resize_to cols rows v = record v { sizes = v.sizes ++ (cols, rows) ∷ [] }

-- A connection that is open and takes every write, with what it relays of each call; `touch` only
-- marks the process as used.
pub record Relays {ℓ} {C : Type ℓ} (conn : Attached C) (seen : C → Seen) : Type ℓ where
  pub writes :
      (c : C) (p : Bytes) → (u : C) × (conn.write c p ≡ (u, true)) × (seen u ≡ type_in p (seen c))
  pub closes :
      (c : C) → seen (close_input conn conn.close_write c) ≡ record (seen c) { at_end = true }
  pub resizes :
      (cols rows : ℕ) (c : C) → seen (conn.exec_resize cols rows c) ≡ resize_to cols rows (seen c)
  pub touches : (c : C) → seen (conn.touch c) ≡ seen c

-- What a message means.
unfoldable pub deliver : Message → Seen → Seen
deliver (typed p) v = type_in p v
deliver input_closed v = record v { at_end = true }
deliver (resized cols rows) v = resize_to cols rows v
deliver keep_alive v = v

unfoldable pub deliver_all : List Message → Seen → Seen
deliver_all [] v = v
deliver_all (m ∷ ms) v = deliver_all ms (deliver m v)

abbrev pub FitsWord : Message → Type 0
FitsWord (resized cols rows) = (cols < 2 ^ 16) × (rows < 2 ^ 16)
FitsWord _ = Unit

type_in_none : (v : Seen) → v ≡ type_in [] v
unfolding type_in
type_in_none v = ap (λ (x : Bytes). record v { input = x }) (sym (append-nil v.input))

type_in_more : (a b : Bytes) (v : Seen) → type_in b (type_in a v) ≡ type_in (a ++ b) v
unfolding type_in
type_in_more a b v = ap (λ (x : Bytes). record v { input = x }) (append_assoc v.input a b)

module _ {ℓ} {C : Type ℓ} (conn : Attached C) (seen : C → Seen) (laws : Relays conn seen) where
  typed-Absorbs :
      (p : Bytes)
      → Absorbs input_ends (handle_input conn) seen (record { kind = 1; payload = p }) (type_in p)
  unfolding handle_input
  typed-Absorbs p c =
      let (u, e, v) = laws.writes c p in (conn.touch u, ap (after_input conn) e, laws.touches u ∙ v)

  send_message-Conveys :
      (m : Message)
      → FitsWord m
      → (w : Bytes)
      → Conveys input_ends (handle_input conn) seen w (send_message append_to m w) (deliver m)
  unfolding send_message deliver handle_input resize_payload
  send_message-Conveys (typed p) h w =
      write_frame-Conveys input_ends (handle_input conn) seen 1 type_in type_in_none type_in_more
        (λ c k. typed-Absorbs c) p w
  send_message-Conveys input_closed h w =
      write_short-Conveys input_ends (handle_input conn) seen 6 [] w (deliver input_closed)
        (omega arith) λ c. (close_input conn conn.close_write c, refl, laws.closes c)
  send_message-Conveys (resized cols rows) h w =
      write_short-Conveys input_ends (handle_input conn) seen 5 (resize_payload cols rows) w
        (deliver (resized cols rows)) (omega arith)
        λ c. (
          conn.exec_resize cols rows c,
          ap (λ (r : Result (ℕ × ℕ)). go (resize_with conn r c))
              (decode_resize-resize_payload cols rows h.0 h.1),
          laws.resizes cols rows c,
        )
  send_message-Conveys keep_alive h w =
      write_short-Conveys input_ends (handle_input conn) seen 8 [] w (deliver keep_alive)
        (omega arith) λ c. (c, refl, refl)

  send_messages-Conveys :
      (ms : List Message)
      → All FitsWord ms
      → (w : Bytes)
      → Conveys input_ends
          (handle_input conn)
          seen
          w
          (send_messages append_to ms w)
          (deliver_all ms)
  unfolding send_messages deliver_all
  send_messages-Conveys [] h w =
      ([], ap (λ (x : Bytes). sent x) (sym (append-nil w)), λ rest c. (c, refl, refl))
  send_messages-Conveys (m ∷ ms) h w =
      Conveys-then input_ends (handle_input conn) seen w (send_message append_to m w)
        (send_messages append_to ms) (send_messages append_to ms) (deliver m) (deliver_all ms)
        (send_message-Conveys m h.0 w) (send_messages-Conveys ms h.1)

  -- The supervisor's input pump implements message passing. Let the attached connection relay every
  -- call, as `Relays` says, and let every resize fit two uint16. Then the bytes that the client's calls of WriteFrame put
  -- on a stream make the pump return, at the end of the stream, with a connection that has relayed
  -- exactly the messages in order: all typed bytes, the end of the input, and the sizes.
  pub pump_input-send_messages :
      (ms : List Message)
      → All FitsWord ms
      → (c : C)
      → (bs : Bytes) × (u : C) × (send_messages append_to ms [] ≡ sent bs)
        × (pump_input conn bs c ≡ returned u)
        × (seen u ≡ deliver_all ms (seen c))
  unfolding pump_input read_frame read_full
  pump_input-send_messages ms h c =
      let (bs, e, m) = send_messages-Conveys ms h [] in
      let (u, p, v) = m [] c in
      (
        bs,
        u,
        e,
        subst (λ (x : Bytes). read_frames input_ends (handle_input conn) x c ≡ returned u)
            (append-nil bs) (p ∙ read_frames_step input_ends (handle_input conn) [] u),
        v,
      )
