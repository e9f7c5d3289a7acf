-- ===== src/Supervise/Manager/Touch.antt =====
-- Which processes the table holds after EnsureRunning has touched a key and its peer: those it held
-- before and the key's own, each as it was but for its last touch.
use local_preview.Base.{
  ℕ, ◌≡◌, inl, inr, true, false, none, some, refl, if◌then◌else◌, Bool, Bool-cases, subst, ◌∙◌,
  Option, Table, find, put, find-put,
}
use local_preview.Supervise.Keys.{
  Key, backend_key, key_same, key_same_iff, is_paired_frontend, Key_comparable,
}
use local_preview.Supervise.Manager.{Process, touch_peer, touched}

-- The same process, at most touched.
abbrev pub SameProcess : Option Process → Option Process → Type 0
SameProcess none none = Unit
SameProcess (some p) none = ⊥
SameProcess none (some q) = ⊥
SameProcess (some p) (some q) =
    (p.uid ≡ q.uid)
    × (p.ready ≡ q.ready)
    × (p.exited ≡ q.exited)
    × (p.launched ≡ q.launched)
    × (p.repo_name ≡ q.repo_name)

SameProcess-refl : (o : Option Process) → SameProcess o o
SameProcess-refl none = tt
SameProcess-refl (some p) = (refl, refl, refl, refl, refl)

find-put_touch :
    (b j : Key) (bp : Process) (now : ℕ) (procs : Table Key Process)
    → find b procs ≡ some bp
    → SameProcess (find j (put b (record bp { last_touch = now }) procs)) (find j procs)
find-put_touch b j bp now procs e = elim (Bool-cases (key_same b j)) [
  | inl same ↦
      rw (find-put b j (record bp { last_touch = now }) procs, same)
        (subst (λ i. SameProcess (some (record bp { last_touch = now })) (find i procs))
          ((key_same_iff b j).0 same) (rw e (refl, refl, refl, refl, refl)))
  | inr other ↦
      rw (find-put b j (record bp { last_touch = now }) procs, other)
        (SameProcess-refl (find j procs))
]

find-touch_peer :
    (k j : Key) (now : ℕ) (procs : Table Key Process)
    → SameProcess (find j (touch_peer k now procs)) (find j procs)
find-touch_peer k j now procs =
    cases (is_paired_frontend k) (find (backend_key k.repo_id k.peer) procs) refl
  where
    cases :
        (b : Bool) (o : Option Process)
        → find (backend_key k.repo_id k.peer) procs ≡ o
        → SameProcess
            (find j (
              if b
              then (elim o [
                | none ↦ procs
                | some bp ↦
                    put (backend_key k.repo_id k.peer) (record bp { last_touch = now }) procs
              ])
              else procs))
            (find j procs)
    cases false o e = SameProcess-refl (find j procs)
    cases true none e = SameProcess-refl (find j procs)
    cases true (some bp) e = find-put_touch (backend_key k.repo_id k.peer) j bp now procs e

SameProcess-trans : (a b c : Option Process) → SameProcess a b → SameProcess b c → SameProcess a c
SameProcess-trans none none none h g = tt
SameProcess-trans none (some y) c h g = absurd h
SameProcess-trans none none (some z) h g = g
SameProcess-trans (some x) none c h g = absurd h
SameProcess-trans (some x) (some y) none h g = g
SameProcess-trans (some x) (some y) (some z) h g =
    (h.0 ∙ g.0, h.1 ∙ g.1, h.2 ∙ g.2, h.3 ∙ g.3, h.4 ∙ g.4)

pub find-touched :
    (k j : Key) (p : Process) (now : ℕ) (procs : Table Key Process)
    → SameProcess (find j (touched k p now procs)) (if key_same k j then some p else find j procs)
find-touched k j p now procs =
    SameProcess-trans _ _ _ (find-touch_peer k j now (put k (record p { last_touch = now }) procs))
      (rw (find-put k j (record p { last_touch = now }) procs) (entry (key_same k j)))
  where
    entry :
        (b : Bool)
        → SameProcess
            (if b then some (record p { last_touch = now }) else find j procs)
            (if b then some p else find j procs)
    entry true = (refl, refl, refl, refl, refl)
    entry false = SameProcess-refl (find j procs)
