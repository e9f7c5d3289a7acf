-- ===== src/Supervise/Manager/Exclusive.antt =====
-- A recorded failure and a tracked process exclude one another, but for a process whose start has
-- noted its failure and not yet given up the key: the sections of internal/supervise/supervise.go
-- but for those of start's `fail` closure.
use local_preview.Base.{
  ℕ, ◌≡◌, ◌≢◌, ◌⊎◌, inl, inr, String, Bool, true, false, Option, none, some, refl, subst, arith,
  ◌==◌, ◌∙◌, Bool-cases, Option-cases, Table, find, put, delete, find-put, find-delete, [], ◌∷◌,
  if_cases,
}
use local_preview.Supervise.Keys.{Key, key_same, key_same_iff, Key_comparable}
use local_preview.Supervise.Manager.{
  Manager, Process, touched, fresh_process, enter_missing, ensure_entry, forget, clear_failure,
  note_exit, amend, end_stop, stop_all, stop_repo, without_repo,
}
use local_preview.Supervise.Manager.Cases.{ensure_entry_cases, note_exit_cases}
use local_preview.Supervise.Manager.Touch.{SameProcess, find-touched}
use local_preview.Supervise.Manager.Calm.{
  Failing, breaks_off, IsExclusive, still, Calm-IsExclusive, Remains-same, Remains-refl, Remains-at,
  Calm-enter_found, Calm-forget, Calm-clear_failure,
}

enter_missing-IsExclusive :
    (f : Failing) (k : Key) (repo_name : String) (now : ℕ) (m : Manager)
    → IsExclusive f m
    → IsExclusive f (enter_missing k repo_name now m).1
unfolding enter_missing
enter_missing-IsExclusive f k repo_name now m x j = elim (Bool-cases (key_same k j)) [
  | inl same ↦ inr (inl (find-delete k j m.failures ∙ (rw same refl)))
  | inr other ↦ elim (x j) [
    | inr (inl e) ↦ inr (inl (find-delete k j m.failures ∙ (rw other e)))
    | inl e ↦ moved other (inl e)
    | inr (inr b) ↦ moved other (inr b)
  ]
]
  where
    fresh : Process
    fresh = fresh_process m.next_uid repo_name

    moved :
        key_same k j ≡ false
        → (find j m.procs ≡ none) ⊎ (breaks_off j f (find j m.procs) ≡ true)
        → (find j (touched k fresh now m.procs) ≡ none)
          ⊎ ((find j (delete k m.failures) ≡ none)
              ⊎ (breaks_off j f (find j (touched k fresh now m.procs)) ≡ true))
    moved other h =
        elim (still f j (find j (touched k fresh now m.procs)) (find j m.procs)
          (Remains-same _ _ (
            subst (λ o. SameProcess (find j (touched k fresh now m.procs)) o) (rw other refl)
              (find-touched k j fresh now m.procs)))
          h) [ inl e ↦ inl e | inr b ↦ inr (inr b) ]

pub ensure_entry-IsExclusive :
    (f : Failing) (k : Key) (repo_name : String) (now : ℕ) (m : Manager)
    → IsExclusive f m
    → IsExclusive f (ensure_entry k repo_name now m).1
ensure_entry-IsExclusive f k repo_name now m x =
    ensure_entry_cases k m (λ r. IsExclusive f r.1) repo_name now (λ s. x)
      (λ s e. enter_missing-IsExclusive f k repo_name now m x)
      (λ p s e. Calm-IsExclusive f m _ (Calm-enter_found k p now m e) x)

pub drop-IsExclusive :
    (f : Failing) (k : Key) (uid : ℕ) (m : Manager)
    → IsExclusive f m
    → IsExclusive f (forget k uid m)
drop-IsExclusive f k uid m x = Calm-IsExclusive f m (forget k uid m) (Calm-forget k uid m) x

pub clear_failure-IsExclusive :
    (f : Failing) (k : Key) (m : Manager) → IsExclusive f m → IsExclusive f (clear_failure k m)
clear_failure-IsExclusive f k m x =
    Calm-IsExclusive f m (clear_failure k m) (Calm-clear_failure k m) x

pub end_stop-IsExclusive :
    (f : Failing) (k : Key) (o : Option Process) (m : Manager)
    → IsExclusive f m
    → IsExclusive f (end_stop k o m)
unfolding end_stop
end_stop-IsExclusive f k none m x = x
end_stop-IsExclusive f k (some p) m x =
    if_cases (IsExclusive f) p.launched _ _ (λ e. drop-IsExclusive f k p.uid m x) (λ e. x)

without_repo-none :
    (repo_id : ℕ) (j : Key) (failures : Table Key String)
    → find j failures ≡ none
    → find j (without_repo repo_id failures) ≡ none
unfolding find
without_repo-none repo_id j [] e = refl
without_repo-none repo_id j ((k, f) ∷ m) e = ground (arith, without_repo-none repo_id j m)

pub stop_repo-IsExclusive :
    (f : Failing) (repo_id : ℕ) (m : Manager)
    → IsExclusive f m
    → IsExclusive f (stop_repo repo_id m).1
unfolding stop_repo
stop_repo-IsExclusive f repo_id m x =
    Calm-IsExclusive f m (stop_repo repo_id m).1
      (record {
        procs = λ j. Remains-refl (find j m.procs);
        failures = λ j h. without_repo-none repo_id j m.failures h;
      })
      x

pub stop_all-IsExclusive :
    (f : Failing) (m : Manager) → IsExclusive f m → IsExclusive f (stop_all m).1
unfolding stop_all
stop_all-IsExclusive f m x = x

pub amend-IsExclusive :
    (f : Failing) (k : Key) (uid : ℕ) (g : Process → Process) (m : Manager)
    → ((p : Process) → (g p).uid ≡ p.uid)
    → IsExclusive f m
    → IsExclusive f (amend k uid g m)
unfolding amend
amend-IsExclusive f k uid g m same x = elim (Option-cases (find k m.procs)) [
  | inl e ↦ rw (e, amend) x
  | inr (p, e) ↦ elim (Bool-cases (p.uid == uid)) [
    | inl own ↦
        rw (e, own, amend)
          (Calm-IsExclusive f m (record m { procs = put k (g p) m.procs })
            (record {
              procs = λ j.
                  rw (find-put k j (g p) m.procs)
                    (Remains-at k j m.procs (some (g p)) (rw e (same p)));
              failures = λ j h. h;
            })
            x)
    | inr other ↦ rw (e, other, amend) x
  ]
]

-- The failure of a key under which no process is tracked
note-IsExclusive :
    (f : Failing) (k : Key) (detail : String) (m : Manager)
    → find k m.procs ≡ none
    → IsExclusive f m
    → IsExclusive f (record m { failures = put k detail m.failures })
note-IsExclusive f k detail m u x j = elim (Bool-cases (key_same k j)) [
  | inl same ↦ inl (subst (λ i. find i m.procs ≡ none) ((key_same_iff k j).0 same) u)
  | inr other ↦ elim (x j) [
    | inl e ↦ inl e
    | inr (inl e) ↦ inr (inl (find-put k j detail m.failures ∙ rw (other, e) refl))
    | inr (inr b) ↦ inr (inr b)
  ]
]

pub note_exit-IsExclusive :
    (f : Failing) (k : Key) (uid : ℕ) (exit_ok was_ready : Bool) (exit : String) (m : Manager)
    → ((p : Process) → find k m.procs ≡ some p → p.uid ≢ uid)
    → IsExclusive f m
    → IsExclusive f (note_exit k uid exit_ok was_ready exit m)
note_exit-IsExclusive f k uid exit_ok was_ready exit m gone x =
    note_exit_cases k m (IsExclusive f) uid exit_ok was_ready exit x
      (λ u. note-IsExclusive f k exit m u x) (λ p e u. absurd (gone p e u))
