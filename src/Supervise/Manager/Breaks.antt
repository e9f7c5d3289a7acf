-- ===== src/Supervise/Manager/Breaks.antt =====
-- The same through the two sections of start's `fail` closure in internal/supervise/supervise.go: a
-- start notes its failure, and then gives up the key.
use local_preview.Base.{
  ℕ, ◌≡◌, ◌≢◌, ◌⊎◌, inl, inr, String, true, false, Option, none, some, refl, sym, subst, arith,
  ==_iff, ◌∙◌, Bool-cases, find, put, find-put, find-delete, [], ◌∷◌, same_refl,
}
use local_preview.Supervise.Keys.{Key, key_same, key_same_iff, Key_comparable}
use local_preview.Supervise.Manager.{Manager, Process, forget, note_failure}
use local_preview.Supervise.Manager.Cases.{forget_cases}
use local_preview.Supervise.Manager.Calm.{
  Failing, is_start, is_failing, without_start, breaks_off, IsExclusive, OwnedBy,
}

is_start_self : (k : Key) (uid : ℕ) → is_start k uid (k, uid) ≡ true
is_start_self k uid = ground (arith, same_refl k, ==_iff uid uid)

more_failing :
    (f : Failing) (k j : Key) (uid : ℕ) (o : Option Process)
    → breaks_off j f o ≡ true
    → breaks_off j ((k, uid) ∷ f) o ≡ true
more_failing f k j uid none h = absurd (cc)
more_failing f k j uid (some p) h = ground arith

-- A start that breaks off notes the reason, and has its process still under the key, or nothing.
pub break_off-IsExclusive :
    (f : Failing) (k : Key) (uid : ℕ) (detail : String) (m : Manager)
    → OwnedBy k uid m
    → IsExclusive f m
    → IsExclusive ((k, uid) ∷ f) (note_failure k detail m)
unfolding note_failure
break_off-IsExclusive f k uid detail m owned x j = elim (Bool-cases (key_same k j)) [
  | inl same ↦ subst At ((key_same_iff k j).0 same) (own (find k m.procs) refl)
  | inr other ↦ elim (x j) [
    | inl e ↦ inl e
    | inr (inl e) ↦ inr (inl (find-put k j detail m.failures ∙ rw (other, e) refl))
    | inr (inr b) ↦ inr (inr (more_failing f k j uid (find j m.procs) b))
  ]
]
  where
    At : Key → Type 0
    At i =
        (find i m.procs ≡ none)
        ⊎ ((find i (put k detail m.failures) ≡ none)
            ⊎ (breaks_off i ((k, uid) ∷ f) (find i m.procs) ≡ true))

    own : (o : Option Process) → find k m.procs ≡ o → At k
    own none e = inl e
    own (some p) e =
        let same : p.uid ≡ uid = owned p e in
        let here : is_failing k p.uid ((k, uid) ∷ f) ≡ true =
          subst (λ i. is_failing k i ((k, uid) ∷ f) ≡ true) (sym same)
            (rw (is_start_self k uid) refl) in
        inr (inr (subst (λ q. breaks_off k ((k, uid) ∷ f) q ≡ true) (sym e) here))

kept_failing :
    (f : Failing) (k j : Key) (uid i : ℕ)
    → is_start k uid (j, i) ≡ false
    → is_failing j i f ≡ true
    → is_failing j i (without_start k uid f) ≡ true
kept_failing [] k j uid i n h = h
kept_failing ((l, u) ∷ f) k j uid i n h = elim (Bool-cases (is_start k uid (l, u))) [
  | inr other ↦ rw other (ground (arith, kept_failing f k j uid i n))
  | inl this ↦ rw this (
      ground (
        arith,
        kept_failing f k j uid i n,
        key_same_iff l k,
        key_same_iff l j,
        key_same_iff j k,
        ==_iff u uid,
        ==_iff u i,
        ==_iff i uid,
      ))
]

-- The start gives up the key, and is no longer one that breaks off.
pub release-IsExclusive :
    (f : Failing) (k : Key) (uid : ℕ) (m : Manager)
    → IsExclusive f m
    → IsExclusive (without_start k uid f) (forget k uid m)
release-IsExclusive f k uid m x =
    forget_cases k m (IsExclusive (without_start k uid f)) uid
      (λ other j. elim (x j) [
        | inl e ↦ inl e
        | inr (inl e) ↦ inr (inl e)
        | inr (inr b) ↦ inr (inr (left j other (find j m.procs) refl b))
      ])
      (λ p e u j. elim (Bool-cases (key_same k j)) [
        | inl same ↦ inl (find-delete k j m.procs ∙ rw same refl)
        | inr other ↦ elim (x j) [
          | inl h ↦ inl (find-delete k j m.procs ∙ rw (other, h) refl)
          | inr (inl h) ↦ inr (inl h)
          | inr (inr b) ↦
              inr (inr (rw (find-delete k j m.procs, other) (elsewhere j other (find j m.procs) b)))
        ]
      ])
  where
    elsewhere :
        (j : Key)
        → key_same k j ≡ false
        → (o : Option Process) → breaks_off j f o ≡ true
        → breaks_off j (without_start k uid f) o ≡ true
    elsewhere j n none h = h
    elsewhere j n (some p) h =
        kept_failing f k j uid p.uid (ground (arith, key_same_iff k j, key_same_iff j k)) h

    left :
        (j : Key)
        → ((p : Process) → find k m.procs ≡ some p → p.uid ≢ uid)
        → (o : Option Process) → find j m.procs ≡ o
        → breaks_off j f o ≡ true
        → breaks_off j (without_start k uid f) o ≡ true
    left j other none e h = h
    left j other (some p) e h = kept_failing f k j uid p.uid differs h
      where
        differs : is_start k uid (j, p.uid) ≡ false
        differs = elim (Bool-cases (is_start k uid (j, p.uid))) [
          | inr d ↦ d
          | inl d ↦ absurd (
              other p (subst (λ i. find i m.procs ≡ some p) (here d) e)
                (ground (arith, ==_iff p.uid uid)))
        ]
          where
            here : is_start k uid (j, p.uid) ≡ true → j ≡ k
            here d = ground (arith, key_same_iff j k)
