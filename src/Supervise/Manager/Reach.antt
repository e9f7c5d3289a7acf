-- ===== src/Supervise/Manager/Reach.antt =====
-- The process table under any interleaving of requests, starts, exits and stops.
use local_preview.Base.{
  ℕ, ◌≡◌, ◌≢◌, ◌↔◌, inl, inr, String, Bool, false, Option, none, some, [], ◌∷◌, refl, arith, find,
}
use local_preview.Supervise.Keys.{Key, Key_comparable}
use local_preview.Supervise.Manager.{
  Manager, Process, new_manager, status, status_of, crashed, last_failure, ensure_entry, forget,
  note_failure, clear_failure, note_exit, launch, healthy, finish, end_stop, stop_all, stop_repo,
}
use local_preview.Supervise.Manager.Calm.{Failing, IsExclusive, OwnedBy, without_start, breaks_off}
use local_preview.Supervise.Manager.Exclusive.{
  ensure_entry-IsExclusive, drop-IsExclusive, clear_failure-IsExclusive, end_stop-IsExclusive,
  stop_repo-IsExclusive, stop_all-IsExclusive, note_exit-IsExclusive, amend-IsExclusive,
}
use local_preview.Supervise.Manager.Breaks.{break_off-IsExclusive, release-IsExclusive}

-- One critical section that is no part of `fail`. The exit of a process is noted after the process
-- was forgotten.
pub data Section (m m' : Manager) : Type 0 where
  enter :
      (k : Key) (repo_name : String) (now : ℕ)
      → m' ≡ (ensure_entry k repo_name now m).1
      → Section m m'
  spawn : (k : Key) (uid port idle_after : ℕ) → m' ≡ launch k uid port idle_after m → Section m m'
  answer : (k : Key) (uid : ℕ) → m' ≡ healthy k uid m → Section m m'
  end : (k : Key) (uid : ℕ) → m' ≡ finish k uid m → Section m m'
  drop : (k : Key) (uid : ℕ) → m' ≡ forget k uid m → Section m m'
  exit :
      (k : Key) (uid : ℕ) (exit_ok was_ready : Bool) (text : String)
      → ((p : Process) → find k m.procs ≡ some p → p.uid ≢ uid)
      → m' ≡ note_exit k uid exit_ok was_ready text m
      → Section m m'
  begin_stop : (k : Key) → m' ≡ clear_failure k m → Section m m'
  stop : (k : Key) (o : Option Process) → m' ≡ end_stop k o m → Section m m'
  shut_down : m' ≡ (stop_all m).1 → Section m m'
  clear_repo : (repo_id : ℕ) → m' ≡ (stop_repo repo_id m).1 → Section m m'

-- The states that the table reaches, with the starts that are between the two sections of `fail`. A
-- start begins to break off while no newer process has its key: stale_failure is what happens
-- otherwise.
pub data Reach : Failing → Manager → Type 0 where
  begin : Reach [] new_manager
  next : {f : Failing} {m m' : Manager} → Reach f m → Section m m' → Reach f m'
  break_off :
      {f : Failing} {m : Manager} (k : Key) (uid : ℕ) (detail : String)
      → Reach f m
      → OwnedBy k uid m
      → Reach ((k, uid) ∷ f) (note_failure k detail m)
  release :
      {f : Failing} {m : Manager} (k : Key) (uid : ℕ)
      → Reach f m
      → Reach (without_start k uid f) (forget k uid m)

Section-IsExclusive :
    (f : Failing) {m m' : Manager} → Section m m' → IsExclusive f m → IsExclusive f m'
Section-IsExclusive f {m} (enter k r now e) x = rw e (ensure_entry-IsExclusive f k r now m x)
Section-IsExclusive f {m} (spawn k uid port d e) x =
    rw e (amend-IsExclusive f k uid _ m (λ p. refl) x)
Section-IsExclusive f {m} (answer k uid e) x = rw e (amend-IsExclusive f k uid _ m (λ p. refl) x)
Section-IsExclusive f {m} (end k uid e) x = rw e (amend-IsExclusive f k uid _ m (λ p. refl) x)
Section-IsExclusive f {m} (drop k uid e) x = rw e (drop-IsExclusive f k uid m x)
Section-IsExclusive f {m} (exit k uid a b t g e) x =
    rw e (note_exit-IsExclusive f k uid a b t m g x)
Section-IsExclusive f {m} (begin_stop k e) x = rw e (clear_failure-IsExclusive f k m x)
Section-IsExclusive f {m} (stop k o e) x = rw e (end_stop-IsExclusive f k o m x)
Section-IsExclusive f {m} (shut_down e) x = rw e (stop_all-IsExclusive f m x)
Section-IsExclusive f {m} (clear_repo r e) x = rw e (stop_repo-IsExclusive f r m x)

none_tracked : IsExclusive [] new_manager
unfolding find
none_tracked j = inl refl

pub Reach-IsExclusive : {f : Failing} {m : Manager} → Reach f m → IsExclusive f m
Reach-IsExclusive begin = none_tracked
Reach-IsExclusive {f} (next r s) = Section-IsExclusive f s (Reach-IsExclusive r)
Reach-IsExclusive (break_off {f} {m} k uid detail r o) =
    break_off-IsExclusive f k uid detail m o (Reach-IsExclusive r)
Reach-IsExclusive (release {f} {m} k uid r) = release-IsExclusive f k uid m (Reach-IsExclusive r)

crashed_of :
    (f : Failing) (k : Key) (p : Option Process) (d : Option String)
    → status_of p d ≡ crashed
    → ((detail : String) × (d ≡ some detail)) × (breaks_off k f p ≡ false)
crashed_of f k none none h = absurd (ground arith)
crashed_of f k none (some d) h = ((d, refl), refl)
crashed_of f k (some p) d h = absurd (ground arith)

-- In every state that the table reaches by such sections, in any order, Status reports a crash for
-- exactly the keys for which LastFailure has a reason, but for a key whose tracked process has a
-- start that has noted its failure and not yet given up the key. A start begins to break off only
-- while no newer process has taken its key.
pub crashed_iff :
    {f : Failing} {m : Manager} (k : Key)
    → Reach f m
    → (status k m ≡ crashed) ↔ (
        ((detail : String) × (last_failure k m ≡ some detail))
        × (breaks_off k f (find k m.procs) ≡ false))
unfolding status last_failure
crashed_iff {f} {m} k r = (
  crashed_of f k (find k m.procs) (find k m.failures),
  λ ((d, e), n). elim (Reach-IsExclusive r k) [
    | inl free ↦ rw (free, e)
    | inr (inl clear) ↦ absurd (cc)
    | inr (inr b) ↦ absurd (cc)
  ],
)
