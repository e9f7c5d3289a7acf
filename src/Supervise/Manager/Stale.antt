-- ===== src/Supervise/Manager/Stale.antt =====
-- The race of start's `fail` closure in internal/supervise/supervise.go with a newer start, in which the reason of one start is left on the process of the next.
use local_preview.Base.{
  ℕ, ◌≡◌, ◌≢◌, ◌<◌, refl, sym, ◌∙◌, String, true, false, Option, none, some, arith, find, put,
  delete, find-put, find-delete, same_refl, ==_iff, subst, ap,
}
use local_preview.Supervise.Keys.{Key, Key_comparable}
use local_preview.Supervise.Manager.{
  Manager, Process, touched, fresh_process, enter_missing, ensure_entry, forget, note_failure,
  note_exit, healthy, amend, status, running, crashed, last_failure,
}
use local_preview.Supervise.Manager.Cases.{ensure_entry_cases}
use local_preview.Supervise.Manager.Touch.{SameProcess, find-touched}

forget_own :
    (k : Key) (q : Process) (m : Manager)
    → find k m.procs ≡ some q
    → forget k q.uid m ≡ record m { procs = delete k m.procs }
unfolding forget
forget_own k q m e = rw (e, forget) (ground (arith, ==_iff q.uid q.uid))

forget_other :
    (k : Key) (uid : ℕ) (q : Process) (m : Manager)
    → find k m.procs ≡ some q
    → q.uid ≢ uid
    → forget k uid m ≡ m
unfolding forget
forget_other k uid q m e n = rw (e, forget) (ground (arith, ==_iff q.uid uid))

amend_own :
    (k : Key) (f : Process → Process) (q : Process) (m : Manager)
    → find k m.procs ≡ some q
    → amend k q.uid f m ≡ record m { procs = put k (f q) m.procs }
unfolding amend
amend_own k f q m e = rw (e, amend) (ground (arith, ==_iff q.uid q.uid))

ensure_entry-enter_missing :
    (k : Key) (repo_name : String) (now : ℕ) (m : Manager)
    → m.stopping ≡ false
    → find k m.procs ≡ none
    → ensure_entry k repo_name now m ≡ enter_missing k repo_name now m
ensure_entry-enter_missing k repo_name now m s e =
    ensure_entry_cases k m (λ r. r ≡ enter_missing k repo_name now m) repo_name now (λ t. cc)
      (λ _ _. refl) (λ p _ f. cc)

same_some :
    (o : Option Process) (q : Process)
    → SameProcess o (some q)
    → (p : Process) × (o ≡ some p) × (p.uid ≡ q.uid)
same_some none q s = absurd s
same_some (some p) q s = (p, refl, s.0)

module _ (k : Key) (repo_name : String) (now : ℕ) (detail : String) where
  -- A process exits while its start still waits for it to be healthy, so that it is forgotten, and a
  -- request takes the key.
  abbrev pub retaken : Process → Manager → Manager
  retaken p m = (ensure_entry k repo_name now (forget k p.uid m)).1

  -- The start of the first process then breaks off, and that of the second, which had to wait for
  -- it, succeeds.
  abbrev pub healthy_again : Process → Manager → Manager
  healthy_again p m = healthy k m.next_uid (forget k p.uid (note_failure k detail (retaken p m)))

  -- The second process exits of its own with status 0.
  abbrev pub exited_well : Process → Manager → Manager
  exited_well p m =
      note_exit k m.next_uid true true "exit ok" (forget k m.next_uid (healthy_again p m))

  tracked :
      (p : Process) (m : Manager)
      → m.stopping ≡ false
      → find k m.procs ≡ some p
      → (q : Process) × (find k (retaken p m).procs ≡ some q) × (q.uid ≡ m.next_uid)
  unfolding enter_missing
  tracked p m s e =
      let gone = forget_own k p m e in
      let free : find k (delete k m.procs) ≡ none =
        find-delete k k m.procs ∙ rw (same_refl k) refl in
      let fresh = fresh_process m.next_uid repo_name in
      let held : SameProcess (find k (touched k fresh now (delete k m.procs))) (some fresh) =
        subst (λ o. SameProcess (find k (touched k fresh now (delete k m.procs))) o)
          (rw (same_refl k) refl) (find-touched k k fresh now (delete k m.procs)) in
      let taken : retaken p m
          ≡ (enter_missing k repo_name now (record m { procs = delete k m.procs })).1 =
        ap (λ t. (ensure_entry k repo_name now t).1) gone
        ∙ ap (λ r. r.1)
            (ensure_entry-enter_missing k repo_name now (record m { procs = delete k m.procs }) s
              free) in
      let (q, f, u) = same_some (find k (touched k fresh now (delete k m.procs))) fresh held in
      (q, ap (λ t. find k t.procs) taken ∙ f, u)

  abbrev Misleads : ℕ → Manager → Type 0
  Misleads uid u =
      (status k u ≡ running)
      × (last_failure k u ≡ some detail)
      × (status k (note_exit k uid true true "exit ok" (forget k uid u)) ≡ crashed)

  noted-Misleads :
      (q : Process) (t : Manager)
      → find k t.procs ≡ some q
      → Misleads q.uid (record t {
        procs = put k (record q { ready = true }) t.procs;
        failures = put k detail t.failures;
      })
  unfolding status last_failure note_exit
  noted-Misleads q t f =
      let r : Process = record q { ready = true } in
      let u : Manager = record t { procs = put k r t.procs; failures = put k detail t.failures } in
      let there : find k (put k r t.procs) ≡ some r =
        find-put k k r t.procs ∙ rw (same_refl k) refl in
      let noted : find k (put k detail t.failures) ≡ some detail =
        find-put k k detail t.failures ∙ rw (same_refl k) refl in
      let free : find k (delete k (put k r t.procs)) ≡ none =
        find-delete k k (put k r t.procs) ∙ rw (same_refl k) refl in
      (
        rw there refl,
        noted,
        ap (λ x. status k (note_exit k q.uid true true "exit ok" x)) (forget_own k r u there)
            ∙ rw (free, noted) refl,
      )

  -- Let a process that is older than the next one hold the key. When it exits during its start, a
  -- request takes the key again, its start then breaks off, and the start of the new process
  -- succeeds, Status says running while LastFailure still gives the reason of the old one; and when
  -- the new process exits on its own with status 0, Status says crashed.
  pub stale_failure :
      (p : Process) (m : Manager)
      → m.stopping ≡ false
      → find k m.procs ≡ some p
      → p.uid < m.next_uid
      → (status k (healthy_again p m) ≡ running)
        × (last_failure k (healthy_again p m) ≡ some detail)
        × (status k (exited_well p m) ≡ crashed)
  unfolding note_failure
  stale_failure p m s e old =
      let (q, f, u) = tracked p m s e in
      let t = retaken p m in
      let noted = record t { failures = put k detail t.failures } in
      let other : q.uid ≢ p.uid = λ x. omega arith in
      let unforgotten : forget k p.uid noted ≡ noted = forget_other k p.uid q noted f other in
      let ready : healthy k q.uid noted
          ≡ record noted { procs = put k (record q { ready = true }) noted.procs } =
        amend_own k (λ p. record p { ready = true }) q noted f in
      subst (λ n. Misleads n (healthy k n (forget k p.uid (note_failure k detail (retaken p m))))) u
        (subst (λ x. Misleads q.uid (healthy k q.uid x)) (sym unforgotten)
          (subst (Misleads q.uid) (sym ready) (noted-Misleads q t f)))
