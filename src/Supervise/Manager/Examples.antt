-- ===== src/Supervise/Manager/Examples.antt =====
-- Runs of the process table: a start that fails, and a start that fails too late.
use local_preview.Base.{◌≡◌, ◌↔◌, refl, String, false, some, [], ◌∷◌, arith, find, ◌<◌, put, delete}
use local_preview.Supervise.Keys.{Key, backend_key, key_same, Key_comparable}
use local_preview.Supervise.Manager.{
  Manager, Process, new_manager, fresh_process, status, starting, crashed, running, last_failure,
  enter_missing, ensure_entry, forget, note_failure,
}
use local_preview.Supervise.Manager.Calm.{OwnedBy, breaks_off, without_start}
use local_preview.Supervise.Manager.Reach.{
  Reach, begin, next, enter, break_off, release, crashed_iff,
}
use local_preview.Supervise.Manager.Stale.{healthy_again, exited_well, stale_failure}

abbrev app : Key
app = backend_key 1 "abc"

abbrev begun : Manager
begun = (ensure_entry app "app" 5 new_manager).1

abbrev noted : Manager
noted = note_failure app "port taken" begun

abbrev broken : Manager
broken = forget app 0 noted

begun_owned : OwnedBy app 0 begun
unfolding ensure_entry enter_missing find put key_same
begun_owned p h = ground arith

noted_reached : Reach ((app, 0) ∷ []) noted
noted_reached = break_off app 0 "port taken" (next begin (enter app "app" 5 refl)) begun_owned

-- Between the two sections of fail there is a reason, and the process is still starting.
noted_starting : status app noted ≡ starting
unfolding status ensure_entry enter_missing note_failure find put delete key_same
noted_starting = refl

broken_crashed : status app broken ≡ crashed
unfolding status ensure_entry enter_missing forget note_failure find put delete key_same
broken_crashed = refl

crashed_iff_example : (status app broken ≡ crashed) ↔ (
    ((detail : String) × (last_failure app broken ≡ some detail))
    × (breaks_off app (without_start app 0 ((app, 0) ∷ [])) (find app broken.procs) ≡ false))
crashed_iff_example = crashed_iff app (release app 0 noted_reached)

abbrev first : Process
first = record (fresh_process 0 "app") { last_touch = 5 }

begun_found : find app begun.procs ≡ some first
unfolding ensure_entry enter_missing find put key_same
begun_found = refl

begun_open : begun.stopping ≡ false
unfolding ensure_entry enter_missing find
begun_open = refl

older : first.uid < begun.next_uid
unfolding ensure_entry enter_missing find
older = omega arith

stale_failure_example :
    (status app (healthy_again app "app" 6 "timed out" first begun) ≡ running)
    × (last_failure app (healthy_again app "app" 6 "timed out" first begun) ≡ some "timed out")
    × (status app (exited_well app "app" 6 "timed out" first begun) ≡ crashed)
stale_failure_example =
    stale_failure app "app" 6 "timed out" first begun begun_open begun_found older
