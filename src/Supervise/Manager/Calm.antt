-- ===== src/Supervise/Manager/Calm.antt =====
-- What the table of supervise.Manager holds while starts break off, and the sections of
-- internal/supervise/supervise.go that give no key another process or a failure.
use local_preview.Base.{
  ℕ, ◌≡◌, ◌⊎◌, inl, inr, Bool, true, false, Option, none, some, refl, sym, subst, arith, ◌==◌, ◌&&◌,
  not, ◌∙◌, Bool-cases, Table, find, delete, find-delete, List, any, keep, if◌then◌else◌,
}
use local_preview.Supervise.Keys.{Key, key_same, key_same_iff, Key_comparable}
use local_preview.Supervise.Manager.{Manager, Process, touched, enter_found, forget, clear_failure}
use local_preview.Supervise.Manager.Cases.{forget_cases}
use local_preview.Supervise.Manager.Touch.{SameProcess, find-touched}

-- The starts that have noted their failure and not yet forgotten their process
abbrev pub Failing : Type 0
Failing = List (Key × ℕ)

abbrev pub is_start : Key → ℕ → Key × ℕ → Bool
is_start k uid (j, i) = key_same j k && i == uid

abbrev pub is_failing : Key → ℕ → Failing → Bool
is_failing k uid = any (is_start k uid)

abbrev pub without_start : Key → ℕ → Failing → Failing
without_start k uid = keep (λ e. not (is_start k uid e))

-- The process that is tracked under the key has a start of that kind.
abbrev pub breaks_off : Key → Failing → Option Process → Bool
breaks_off k f none = false
breaks_off k f (some p) = is_failing k p.uid f

-- No key has both a tracked process and a recorded failure, unless that process breaks off.
abbrev pub IsExclusive : Failing → Manager → Type 0
IsExclusive f m =
    (j : Key)
    → (find j m.procs ≡ none)
      ⊎ ((find j m.failures ≡ none) ⊎ (breaks_off j f (find j m.procs) ≡ true))

-- No process other than `uid` is tracked under the key.
abbrev pub OwnedBy : Key → ℕ → Manager → Type 0
OwnedBy k uid m = (p : Process) → find k m.procs ≡ some p → p.uid ≡ uid

-- Gone, or the same process
abbrev pub Remains : Option Process → Option Process → Type 0
Remains none q = Unit
Remains (some p) none = ⊥
Remains (some p) (some q) = p.uid ≡ q.uid

pub Remains-refl : (o : Option Process) → Remains o o
Remains-refl none = tt
Remains-refl (some p) = refl

-- No key gets another process or a failure.
pub record Calm (m m' : Manager) : Type 0 where
  pub procs : (j : Key) → Remains (find j m'.procs) (find j m.procs)
  pub failures : (j : Key) → find j m.failures ≡ none → find j m'.failures ≡ none

pub still :
    (f : Failing) (j : Key) (o q : Option Process)
    → Remains o q
    → (q ≡ none) ⊎ (breaks_off j f q ≡ true)
    → (o ≡ none) ⊎ (breaks_off j f o ≡ true)
still f j none q r h = inl refl
still f j (some p) none r h = absurd r
still f j (some p) (some q) r (inl e) = absurd (cc)
still f j (some p) (some q) r (inr b) = inr (subst (λ i. is_failing j i f ≡ true) (sym r) b)

pub Calm-IsExclusive :
    (f : Failing) (m m' : Manager) → Calm m m' → IsExclusive f m → IsExclusive f m'
Calm-IsExclusive f m m' c x j = go (x j)
  where
    move :
        (find j m.procs ≡ none) ⊎ (breaks_off j f (find j m.procs) ≡ true)
        → (find j m'.procs ≡ none)
          ⊎ ((find j m'.failures ≡ none) ⊎ (breaks_off j f (find j m'.procs) ≡ true))
    move h = elim (still f j (find j m'.procs) (find j m.procs) (c.procs j) h) [
      | inl e ↦ inl e
      | inr b ↦ inr (inr b)
    ]

    go :
        (find j m.procs ≡ none)
          ⊎ ((find j m.failures ≡ none) ⊎ (breaks_off j f (find j m.procs) ≡ true))
        → (find j m'.procs ≡ none)
          ⊎ ((find j m'.failures ≡ none) ⊎ (breaks_off j f (find j m'.procs) ≡ true))
    go (inl e) = move (inl e)
    go (inr (inl e)) = inr (inl (c.failures j e))
    go (inr (inr b)) = move (inr b)

Calm-refl : (m : Manager) → Calm m m
Calm-refl m = record { procs = λ j. Remains-refl (find j m.procs); failures = λ j h. h }

pub Remains-same : (o q : Option Process) → SameProcess o q → Remains o q
Remains-same none q s = tt
Remains-same (some p) none s = absurd s
Remains-same (some p) (some q) s = s.0

-- A table of which only the entry of one key changed, to the same process or to none
pub Remains-at :
    (k j : Key) (procs : Table Key Process) (o : Option Process)
    → Remains o (find k procs)
    → Remains (if key_same k j then o else find j procs) (find j procs)
Remains-at k j procs o r = elim (Bool-cases (key_same k j)) [
  | inl same ↦ rw same (subst (λ i. Remains o (find i procs)) ((key_same_iff k j).0 same) r)
  | inr other ↦ rw other (Remains-refl (find j procs))
]

pub Calm-enter_found :
    (k : Key) (p : Process) (now : ℕ) (m : Manager)
    → find k m.procs ≡ some p
    → Calm m (enter_found k p now m).1
unfolding enter_found
Calm-enter_found k p now m e = record {
  procs = λ j. Remains-same _ _ (
      subst (λ o. SameProcess (find j (touched k p now m.procs)) o) (own j)
        (find-touched k j p now m.procs));
  failures = λ j h. h;
}
  where
    own : (j : Key) → (if key_same k j then some p else find j m.procs) ≡ find j m.procs
    own j = elim (Bool-cases (key_same k j)) [
      | inl same ↦
          rw same
            (sym e ∙ subst (λ i. find k m.procs ≡ find i m.procs) ((key_same_iff k j).0 same) refl)
      | inr other ↦ rw other refl
    ]

Calm-delete : (k : Key) (m : Manager) → Calm m (record m { procs = delete k m.procs })
Calm-delete k m = record {
  procs = λ j. rw (find-delete k j m.procs) (Remains-at k j m.procs none tt);
  failures = λ j h. h;
}

pub Calm-forget : (k : Key) (uid : ℕ) (m : Manager) → Calm m (forget k uid m)
Calm-forget k uid m = forget_cases k m (Calm m) uid (λ _. Calm-refl m) (λ p e u. Calm-delete k m)

pub Calm-clear_failure : (k : Key) (m : Manager) → Calm m (clear_failure k m)
unfolding clear_failure
Calm-clear_failure k m = record {
  procs = λ j. Remains-refl (find j m.procs);
  failures = λ j h. ground (arith, find-delete k j m.failures);
}
