-- ===== src/Execstream/Pump.antt =====
-- internal/supervise/exec.go: the input pump of an exec session and the frame of its exit code.
use local_preview.Base.{
  ℕ, zero, suc, List, [], ◌∷◌, Bool, true, false, ◌==◌, if◌then◌else◌, ltb, Option, none, some, ℤ,
  pos, negsuc,
}
use local_preview.Execstream.{
  Bytes, Frame, Result, ok, err, decode_resize, Sent, sent, failed, stuck, write_frame, exit_frame,
  error_frame, stdout_frame, stderr_frame, stdin_frame, stdin_eof_frame, resize_frame, StreamError,
}
use local_preview.Execstream.Loop.{Turn, go, stop, Run, read_frames}

-- What the pump calls: the attached connection of the exec (Write, and CloseWrite where the
-- connection has it), ExecResize of the engine, and touch of the supervisor.
pub record Attached {ℓ} (C : Type ℓ) : Type ℓ where
  pub write : C → Bytes → C × Bool
  pub close_write : Option (C → C)
  pub exec_resize : ℕ → ℕ → C → C
  pub touch : C → C

abbrev pub input_ends {ℓ} : {C : Type ℓ} → StreamError → C → C
input_ends e c = c

module _ {ℓ} {C : Type ℓ} (conn : Attached C) where
  abbrev pub close_input : Option (C → C) → C → C
  close_input none c = c
  close_input (some f) c = f c

  abbrev pub resize_with : Result (ℕ × ℕ) → C → C
  resize_with (ok (cols, rows)) c = conn.exec_resize cols rows c
  resize_with (err e) c = c

  abbrev pub after_input : C × Bool → Turn C C
  after_input (c, true) = go (conn.touch c)
  after_input (c, false) = stop c

  -- The switch on the frame's type.
  unfoldable pub handle_input : Frame → C → Turn C C
  handle_input f c =
      if f.kind == stdin_frame
      then after_input (conn.write c f.payload)
      else if f.kind == stdin_eof_frame
      then go (close_input conn.close_write c)
      else if f.kind == resize_frame
      then go (resize_with (decode_resize f.payload) c)
      else go c

  -- The pump, from the bytes that arrive on the session's stream to the connection it leaves.
  unfoldable pub pump_input : Bytes → C → Run C
  pump_input = read_frames input_ends handle_input

-- byte(min(max(code, 0), 255))
unfoldable pub exit_byte : ℤ → ℕ
exit_byte (pos n) = if ltb 255 n then 255 else n
exit_byte (negsuc n) = 0

unfoldable pub write_exit {ℓ} : {W : Type ℓ} → (W → Bytes → W × Bool) → ℤ → W → Sent W
write_exit write code w = write_frame write exit_frame (exit_byte code ∷ []) w

-- What ExecInspect answers: an error, a command that runs, or its exit code.
pub data Inspection : Type 0 where
  inspect_failed : Bytes → Inspection
  still_running : Inspection
  exited : ℤ → Inspection

-- How the poll after the output ends: with the code that is sent, or with the text of the error that
-- Exec returns instead. `unpolled` is no outcome of the code: the poll ran out of fuel.
pub data Polled : Type 0 where
  exit_code_of : ℤ → Polled
  exec_failed : Bytes → Polled
  unpolled : Polled

-- The poll of ExecInspect; `late i` says whether the deadline has passed after round `i`.
module _ (inspect : ℕ → Inspection) (late : ℕ → Bool) where
  abbrev pub inspected : Inspection → Bool → Polled → Polled
  inspected (inspect_failed text) past rest = exec_failed text
  inspected (exited code) past rest = exit_code_of code
  inspected still_running past rest = if past then exit_code_of (pos 0) else rest

  unfoldable pub poll_from : ℕ → ℕ → Polled
  poll_from zero i = unpolled
  poll_from (suc fuel) i = inspected (inspect i) (late i) (poll_from fuel (suc i))

  abbrev pub poll_exit : ℕ → Polled
  poll_exit fuel = poll_from fuel 0

-- One Write of the output pump to the client's stdout or stderr.
pub data Output : Type 0 where
  on_stdout on_stderr : Bytes → Output

module _ {ℓ} {W : Type ℓ} (write : W → Bytes → W × Bool) where
  unfoldable pub send_output : Output → W → Sent W
  send_output (on_stdout p) w = write_frame write stdout_frame p w
  send_output (on_stderr p) w = write_frame write stderr_frame p w

  -- An error of ExecInspect is returned without an exit frame; the handler that called Exec
  -- (internal/api/exec.go) sends its text in an error frame.
  abbrev pub write_polled : Polled → W → Sent W
  write_polled (exit_code_of code) w = write_exit write code w
  write_polled (exec_failed text) w = write_frame write error_frame text w
  write_polled unpolled w = stuck

  -- The output until the command's stream ends, then what the poll says.
  unfoldable pub exec_output : List Output → Polled → W → Sent W
  exec_output [] polled w = write_polled polled w
  exec_output (o ∷ os) polled w = elim (send_output o w) [
    | sent v ↦ exec_output os polled v
    | failed v ↦ failed v
    | stuck ↦ stuck
  ]
