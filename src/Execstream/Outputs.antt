-- ===== src/Execstream/Outputs.antt =====
-- The output direction of an exec session: what the supervisor writes is what the client prints.
use local_preview.Base.{
  ◌≡◌, ℕ, zero, suc, ◌≤◌, ◌<◌, Bool, true, false, ltb, if◌then◌else◌, length, List, [], ◌∷◌, ◌++◌,
  ℤ, pos, negsuc,
}
use local_preview.Execstream.{max_payload, Bytes, Sent, sent}
use local_preview.Execstream.Loop.{returned, read_frames}
use local_preview.Execstream.Conveys.{Conveys}
use local_preview.Execstream.Pump.{
  Output, on_stdout, on_stderr, Inspection, inspect_failed, still_running, exited, Polled,
  exit_code_of, exec_failed, unpolled,
}
use local_preview.Execstream.Client.{
  finished, exit_error, remote_error, Console, Ending, handle_output, output_breaks,
}

unfoldable pub print_stdout : Bytes → Console → Console
print_stdout p c = record c { stdout = c.stdout ++ p }

unfoldable pub print_stderr : Bytes → Console → Console
print_stderr p c = record c { stderr = c.stderr ++ p }

-- What a sequence of writes prints.
unfoldable pub print_all : List Output → Console → Console
print_all [] c = c
print_all (on_stdout p ∷ os) c = print_all os (print_stdout p c)
print_all (on_stderr p ∷ os) c = print_all os (print_stderr p c)

print : Output → Console → Console
print (on_stdout p) = print_stdout p
print (on_stderr p) = print_stderr p

-- The stream makes the client return with the ending, having printed as `f` says.
abbrev Returns : Bytes → Sent Bytes → Ending → (Console → Console) → Type 0
Returns w r e f =
    (bs : Bytes) × (r ≡ sent (w ++ bs))
    × ((c : Console) → read_frames output_breaks handle_output bs c ≡ returned (e, f c))

-- The ending that a code means, as the client is to see it.
abbrev pub ending_of : ℤ → Ending
ending_of (pos zero) = finished
ending_of (pos (suc n)) = exit_error (if ltb 255 (suc n) then 255 else suc n)
ending_of (negsuc n) = finished

-- What the client is to see of a poll's outcome
abbrev pub IsEndingOf : Polled → Ending → Type 0
IsEndingOf (exit_code_of code) e = e ≡ ending_of code
IsEndingOf (exec_failed text) e = (length text ≤ max_payload) × (e ≡ remote_error text)
IsEndingOf unpolled e = ⊥

module _ (inspect : ℕ → Inspection) (late : ℕ → Bool) where
  -- What an answer of ExecInspect means for the session, before or past the deadline.
  abbrev pub Decides : Inspection → Bool → Ending → Type 0
  Decides (inspect_failed text) past e = e ≡ remote_error text
  Decides (exited code) past e = e ≡ ending_of code
  Decides still_running past e = (past ≡ true) × (e ≡ finished)

  -- The text of an error fits one frame.
  abbrev pub IsShort : Type 0
  IsShort = (j : ℕ) (text : Bytes) → inspect j ≡ inspect_failed text → length text ≤ max_payload

  -- The first answer from round `i` on that is not a running command before the deadline, which
  -- comes at round `n` at the latest, decides on the ending.
  abbrev pub Settles : ℕ → ℕ → Ending → Type 0
  Settles i n e =
      (k : ℕ) × (i ≤ k)
      × (k ≤ n)
      × ((j : ℕ) → i ≤ j → j < k → (inspect j ≡ still_running) × (late j ≡ false))
      × Decides (inspect k) (late k) e
