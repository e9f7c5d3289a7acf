-- ===== src/Execstream/Examples.antt =====
-- Runs of the exec protocol, and the theorems at concrete sessions.
use local_preview.Base.{
  ℕ, Bool, not, ltb, if◌then◌else◌, ◌≡◌, refl, [], ◌∷◌, true, false, some, pos, arith, All,
}
use local_preview.Execstream.{
  Bytes, err, eof, exceeds_cap, unexpected_eof, sent, read_frame, write_frame, put_uint32,
  read_full, read_payload, write_loop, write_chunk,
}
use local_preview.Execstream.Frames.{append_to}
use local_preview.Execstream.Chunks.{CarriedBy, write_frame-CarriedBy}
use local_preview.Execstream.Inverse.{Accepts, read_frame-Accepts, IsByte}
use local_preview.Execstream.Loop.{returned}
use local_preview.Execstream.Pump.{Attached, Inspection, still_running, exited, pump_input}
use local_preview.Execstream.Client.{typed, resized, input_closed, keep_alive, send_messages}
use local_preview.Execstream.Messages.{
  Seen, Relays, type_in, resize_to, deliver_all, pump_input-send_messages,
}

-- A header that announces a payload over the cap is refused before anything is allocated.
over_cap : read_frame (1 ∷ 0 ∷ 16 ∷ 0 ∷ 1 ∷ []) ≡ err (exceeds_cap 1048577)
unfolding read_frame read_full read_payload
over_cap = refl

cut_short : read_frame (1 ∷ 0 ∷ 0 ∷ 0 ∷ 2 ∷ 7 ∷ []) ≡ err unexpected_eof
unfolding read_frame read_full read_payload
cut_short = refl

nothing_left : read_frame [] ≡ err eof
unfolding read_frame read_full read_payload
nothing_left = refl

empty_payload : write_frame append_to 6 [] [] ≡ sent (6 ∷ 0 ∷ 0 ∷ 0 ∷ 0 ∷ [])
unfolding write_frame write_loop write_chunk put_uint32
empty_payload = refl

write_frame-CarriedBy_example :
    CarriedBy 1 (104 ∷ 105 ∷ []) [] 1 (write_frame append_to 1 (104 ∷ 105 ∷ []) [])
write_frame-CarriedBy_example = write_frame-CarriedBy 1 (104 ∷ 105 ∷ []) []

read_frame-Accepts_example :
    Accepts (2 ∷ 0 ∷ 0 ∷ 0 ∷ 1 ∷ 9 ∷ 5 ∷ []) (read_frame (2 ∷ 0 ∷ 0 ∷ 0 ∷ 1 ∷ 9 ∷ 5 ∷ []))
read_frame-Accepts_example = read_frame-Accepts (2 ∷ 0 ∷ 0 ∷ 0 ∷ 1 ∷ 9 ∷ 5 ∷ []) small
  where
    small : All IsByte (2 ∷ 0 ∷ 0 ∷ 0 ∷ 1 ∷ 9 ∷ 5 ∷ [])
    small = ground arith

-- A connection that keeps what it was told.
terminal : Attached Seen
terminal = record {
  write = λ c p. (type_in p c, true);
  close_write = some (λ c. record c { at_end = true });
  exec_resize = resize_to;
  touch = λ c. c;
}

terminal-Relays : Relays terminal (λ c. c)
unfolding terminal
terminal-Relays = record {
  writes = λ c p. (type_in p c, refl, refl);
  closes = λ c. refl;
  resizes = λ cols rows c. refl;
  touches = λ c. refl;
}

abbrev blank : Seen
blank = record { input = []; at_end = false; sizes = [] }

pump_input-send_messages_example :
    (bs : Bytes) × (u : Seen) × (send_messages append_to
        (typed (108 ∷ 115 ∷ []) ∷ resized 80 24 ∷ keep_alive ∷ input_closed ∷ [])
        []
      ≡ sent bs)
    × (pump_input terminal bs blank ≡ returned u)
    × (u
        ≡ deliver_all
            (typed (108 ∷ 115 ∷ []) ∷ resized 80 24 ∷ keep_alive ∷ input_closed ∷ [])
            blank)
pump_input-send_messages_example =
    pump_input-send_messages terminal (λ c. c) terminal-Relays
      (typed (108 ∷ 115 ∷ []) ∷ resized 80 24 ∷ keep_alive ∷ input_closed ∷ [])
      (tt, ((omega arith, omega arith), (tt, (tt, tt)))) blank

-- The engine flips Running off in the second round, and the deadline passes in the third.
abbrev answers : ℕ → Inspection
answers i = if ltb i 1 then still_running else exited (pos 300)

abbrev past : ℕ → Bool
past i = not (ltb i 2)
