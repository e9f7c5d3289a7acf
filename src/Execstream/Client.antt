-- ===== src/Execstream/Client.antt =====
-- cmd/server/exec.go: the frames a session sends and the loop that reads the other end's output.
use local_preview.Base.{ℕ, List, [], ◌∷◌, ◌++◌, Bool, ◌==◌, if◌then◌else◌}
use local_preview.Execstream.{
  Bytes, Frame, StreamError, stdout_frame, stderr_frame, exit_frame, error_frame, stdin_frame,
  stdin_eof_frame, resize_frame, ping_frame, Sent, sent, failed, stuck, write_frame, resize_payload,
}
use local_preview.Execstream.Loop.{Turn, go, stop, Run, read_frames}

-- What the session has written to the two local outputs.
pub record Console : Type 0 where
  pub stdout : Bytes
  pub stderr : Bytes

-- How runExecSession returns: nil, ExitError, RemoteError, or a broken stream.
pub data Ending : Type 0 where
  finished : Ending
  exit_error : ℕ → Ending
  remote_error : Bytes → Ending
  ended_unexpectedly : StreamError → Ending

abbrev pub exit_code : Bytes → ℕ
exit_code (code ∷ []) = code
exit_code _ = 0

abbrev pub exit_with : ℕ → Ending
exit_with code = if code == 0 then finished else exit_error code

unfoldable pub handle_output : Frame → Console → Turn Console (Ending × Console)
handle_output f c =
    if f.kind == stdout_frame
    then go (record c { stdout = c.stdout ++ f.payload })
    else if f.kind == stderr_frame
    then go (record c { stderr = c.stderr ++ f.payload })
    else if f.kind == exit_frame
    then stop (exit_with (exit_code f.payload), c)
    else if f.kind == error_frame
    then stop (remote_error f.payload, c)
    else go c

abbrev pub output_breaks : StreamError → Console → Ending × Console
output_breaks e c = (ended_unexpectedly e, c)

unfoldable pub run_session : Bytes → Console → Run (Ending × Console)
run_session = read_frames output_breaks handle_output

-- One call of WriteFrame that the client's goroutines make.
pub data Message : Type 0 where
  typed : Bytes → Message
  input_closed : Message
  resized : ℕ → ℕ → Message
  keep_alive : Message

module _ {ℓ} {W : Type ℓ} (write : W → Bytes → W × Bool) where
  unfoldable pub send_message : Message → W → Sent W
  send_message (typed p) w = write_frame write stdin_frame p w
  send_message input_closed w = write_frame write stdin_eof_frame [] w
  send_message (resized cols rows) w = write_frame write resize_frame (resize_payload cols rows) w
  send_message keep_alive w = write_frame write ping_frame [] w

  -- The calls made, in the order in which the writer's lock admits them. One that fails does not keep
  -- the others from being made.
  unfoldable pub send_messages : List Message → W → Sent W
  send_messages [] w = sent w
  send_messages (m ∷ ms) w = elim (send_message m w) [
    | sent v ↦ send_messages ms v
    | failed v ↦ send_messages ms v
    | stuck ↦ stuck
  ]
