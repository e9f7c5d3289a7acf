-- ===== src/Supervise/Manager/Cases.antt =====
-- Case analysis of the operations that look a key up: one rule for each, over any property of the
-- result.
use local_preview.Base.{
  ℕ, arith, ◌≡◌, ◌≢◌, refl, String, Bool, true, false, ◌||◌, not, Option, none, some, ◌==◌, ==_iff,
  delete, put, find, if◌then◌else◌,
}
use local_preview.Supervise.Keys.{Key, Key_comparable}
use local_preview.Supervise.Manager.{
  Manager, Process, Entry, refused, enter_missing, enter_found, ensure_entry, forget, note_exit,
}

module _ {ℓ} (k : Key) (m : Manager) where
  pub ensure_entry_cases :
      (P : Entry × Manager → Type ℓ) (repo_name : String) (now : ℕ)
      → (m.stopping ≡ true → P (refused, m))
      → (m.stopping ≡ false → find k m.procs ≡ none → P (enter_missing k repo_name now m))
      → ((p : Process) → m.stopping ≡ false → find k m.procs ≡ some p → P (enter_found k p now m))
      → P (ensure_entry k repo_name now m)
  unfolding ensure_entry
  ensure_entry_cases P repo_name now stopped missing found =
      cases m.stopping (find k m.procs) refl refl
    where
      cases :
          (b : Bool) (o : Option Process)
          → m.stopping ≡ b
          → find k m.procs ≡ o
          → P (
              if b then (refused, m) else elim o [
                | none ↦ enter_missing k repo_name now m
                | some p ↦ enter_found k p now m
              ])
      cases true o s e = stopped s
      cases false none s e = missing s e
      cases false (some p) s e = found p s e

  pub forget_cases :
      (P : Manager → Type ℓ) (uid : ℕ)
      → (((p : Process) → find k m.procs ≡ some p → p.uid ≢ uid) → P m)
      → ((p : Process)
          → find k m.procs ≡ some p
          → p.uid ≡ uid
          → P (record m { procs = delete k m.procs }))
      → P (forget k uid m)
  unfolding forget
  forget_cases P uid other same = cases (find k m.procs) refl
    where
      entry :
          (p : Process) (b : Bool)
          → find k m.procs ≡ some p
          → (p.uid == uid) ≡ b
          → P (if b then record m { procs = delete k m.procs } else m)
      entry p true e u = same p e ((==_iff p.uid uid).0 u)
      entry p false e u = other (λ q f g. ground (arith, f, e))

      cases :
          (o : Option Process)
          → find k m.procs ≡ o
          → P (elim o [
            | none ↦ m
            | some p ↦ if p.uid == uid then record m { procs = delete k m.procs } else m
          ])
      cases none e = other (λ q f g. cc)
      cases (some p) e = entry p (p.uid == uid) e refl

  pub note_exit_cases :
      (P : Manager → Type ℓ) (uid : ℕ) (exit_ok was_ready : Bool) (exit : String)
      → P m
      → (find k m.procs ≡ none → P (record m { failures = put k exit m.failures }))
      → ((p : Process)
          → find k m.procs ≡ some p
          → p.uid ≡ uid
          → P (record m { failures = put k exit m.failures }))
      → P (note_exit k uid exit_ok was_ready exit m)
  unfolding note_exit
  note_exit_cases P uid exit_ok was_ready exit kept free same = skip (exit_ok || not was_ready)
    where
      entry :
          (p : Process) (b : Bool)
          → find k m.procs ≡ some p
          → (p.uid == uid) ≡ b
          → P (if b then record m { failures = put k exit m.failures } else m)
      entry p true e u = same p e ((==_iff p.uid uid).0 u)
      entry p false e u = kept

      cases :
          (o : Option Process)
          → find k m.procs ≡ o
          → P (elim o [
            | none ↦ record m { failures = put k exit m.failures }
            | some p ↦ if p.uid == uid then record m { failures = put k exit m.failures } else m
          ])
      cases none e = free e
      cases (some p) e = entry p (p.uid == uid) e refl

      skip :
          (b : Bool)
          → P (
              if b then m else elim (find k m.procs) [
                | none ↦ record m { failures = put k exit m.failures }
                | some p ↦ if p.uid == uid then record m { failures = put k exit m.failures } else m
              ])
      skip true = kept
      skip false = cases (find k m.procs) refl
