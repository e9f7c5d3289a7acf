-- ===== src/Fleet/Place/Stable.antt =====
-- Minimal disruption: what a placement does when another worker leaves or joins.
use local_preview.Base.{
  ℕ, ◌≤◌, ◌≡◌, ◌∙◌, inl, inr, refl, sym, subst, ap, String, Bool, true, false, ◌&&◌, Option, none,
  some, List, [], ◌∷◌, arith, ltb, keep, str_eq, Bool-cases, ltb→lt,
}
use local_preview.Supervise.Keys.{Key}
use local_preview.Fleet.Registry.{
  Worker, Registry, PlacementKey, placement_key, remove_worker, remove,
}
use local_preview.Fleet.Place.{
  is_placeable, has_room, take_heavier, top_weight_from, top_weight, eligible, fallback,
  place_among, place,
}
use local_preview.Fleet.Place.Choice.{Chosen, IsAmong, IsRightPlace, place_lem}

keep-remove :
    (p : Worker → Bool) (id : String) (ws : List Worker)
    → keep p (remove_worker id ws) ≡ remove_worker id (keep p ws)
unfolding remove_worker
keep-remove p id [] = refl
keep-remove p id (w ∷ ws) = ground (arith, keep-remove p id ws)

module _ (hrw : String → PlacementKey → ℕ) (key : PlacementKey) (id : String) where
  abbrev IsOther : Option Worker → Type 0
  IsOther o = Chosen (λ v. str_eq v.id id ≡ false) o

  abbrev IsLighter : Option Worker → Worker → Type 0
  IsLighter o w = Chosen (λ b. hrw b.id key ≤ hrw w.id key) o

  -- A worker that loses in the end could as well not have come.
  skip_loser :
      (a : Option Worker) (w : Worker) (ws : List Worker)
      → IsLighter a w
      → str_eq w.id id ≡ true
      → IsOther (top_weight_from hrw key (some w) ws)
      → top_weight_from hrw key a ws ≡ top_weight_from hrw key (some w) ws
  unfolding top_weight_from take_heavier
  skip_loser a w [] l e o = absurd (ground arith)
  skip_loser none w (v ∷ vs) l e o = elim (Bool-cases (ltb (hrw w.id key) (hrw v.id key))) [
    | inl h ↦ rw h refl
    | inr h ↦ rw h (skip_loser (some v) w vs (ground arith) e (rw h at o))
  ]
  skip_loser (some b) w (v ∷ vs) l e o = elim (Bool-cases (ltb (hrw w.id key) (hrw v.id key))) [
    | inl h ↦ ground arith
    | inr h ↦ elim (Bool-cases (ltb (hrw b.id key) (hrw v.id key))) [
      | inl g ↦ rw (h, g) (skip_loser (some v) w vs (ground arith) e (rw h at o))
      | inr g ↦ rw (h, g) (skip_loser (some b) w vs l e (rw h at o))
    ]
  ]

  top-remove :
      (best : Option Worker) (ws : List Worker)
      → IsOther (top_weight_from hrw key best ws)
      → top_weight_from hrw key best (remove_worker id ws) ≡ top_weight_from hrw key best ws
  unfolding top_weight_from take_heavier remove_worker
  top-remove best [] o = refl
  top-remove best (w ∷ ws) o = elim (Bool-cases (str_eq w.id id)) [
    | inr other ↦ rw other (top-remove (take_heavier hrw key best w) ws o)
    | inl gone ↦ rw gone (dropped best gone o (top-remove best ws))
  ]
    where
      dropped :
          (b : Option Worker)
          → str_eq w.id id ≡ true
          → IsOther (top_weight_from hrw key (take_heavier hrw key b w) ws)
          → (IsOther (top_weight_from hrw key b ws)
              → top_weight_from hrw key b (remove_worker id ws) ≡ top_weight_from hrw key b ws)
          → top_weight_from hrw key b (remove_worker id ws)
            ≡ top_weight_from hrw key (take_heavier hrw key b w) ws
      dropped none e o ih = let same = skip_loser none w ws tt e o in ih (rw same o) ∙ same
      dropped (some b) e o ih = elim (Bool-cases (ltb (hrw b.id key) (hrw w.id key))) [
        | inl h ↦
            let same = skip_loser (some b) w ws (ground (arith, ltb→lt _ _ h)) e (rw h at o) in
            rw h (ih (rw same (rw h at o)) ∙ same)
        | inr h ↦ rw h (ih (rw h at o))
      ]

among_nonempty :
    (p : Worker → Bool) (w : Worker) (ws : List Worker)
    → IsAmong w ws
    → p w ≡ true
    → keep p ws ≡ []
    → ⊥
among_nonempty p w [] i e h = i
among_nonempty p w (v ∷ vs) i e h = ground (arith, among_nonempty p w vs)

by_weight :
    (hrw : String → PlacementKey → ℕ) (key : PlacementKey) (es others : List Worker) (w : Worker)
    → top_weight hrw key es ≡ some w
    → place_among hrw key es others ≡ some w
unfolding top_weight_from
by_weight hrw key [] others w h = absurd (ground arith)
by_weight hrw key (v ∷ vs) others w h = h

same_some : (v w : Worker) → some v ≡ some w → v ≡ w
same_some v w h = cc

right_of_place :
    (hrw : String → PlacementKey → ℕ) (k : Key) (now : ℕ) (r : Registry) (w : Worker)
    → place hrw k now r ≡ some w
    → IsRightPlace hrw k now r w
right_of_place hrw k now r w h = elim (place_lem hrw k now r) [
  | inl (nowhere, f) ↦ absurd (cc)
  | inr (v, e, right) ↦ subst (IsRightPlace hrw k now r) (same_some v w (sym e ∙ h)) right
]

-- A key that is placed on a worker with room stays there when any other worker leaves the registry,
-- and so it also moves to no worker but a new one when a worker joins.
pub place-remove :
    (hrw : String → PlacementKey → ℕ) (k : Key) (now : ℕ) (id : String) (r : Registry) (w : Worker)
    → place hrw k now r ≡ some w
    → has_room w ≡ true
    → str_eq w.id id ≡ false
    → place hrw k now (remove id r) ≡ some w
unfolding place remove
place-remove hrw k now id r w h room other = stay (eligible r.stale_after now r.workers) refl
  where
    stay :
        (es : List Worker)
        → eligible r.stale_after now r.workers ≡ es
        → place hrw k now (remove id r) ≡ some w
    stay [] e =
        let right = right_of_place hrw k now r w h in
        absurd (
          among_nonempty (λ w. is_placeable r.stale_after now w && has_room w) w r.workers right.0
            (ground (arith, right.1)) e)
    stay (v ∷ vs) e =
        by_weight hrw (placement_key k) (eligible r.stale_after now (remove_worker id r.workers))
          (fallback r.stale_after now (remove_worker id r.workers)) w
          (subst (λ es. top_weight hrw (placement_key k) es ≡ some w)
            (sym (
              keep-remove (λ w. is_placeable r.stale_after now w && has_room w) id r.workers
              ∙ ap (remove_worker id) e))
            (top-remove hrw (placement_key k) id none (v ∷ vs) (rw chosen other) ∙ chosen))
      where
        chosen : top_weight hrw (placement_key k) (v ∷ vs) ≡ some w
        chosen =
            subst
              (λ es.
                place_among hrw (placement_key k) es (fallback r.stale_after now r.workers)
                ≡ some w)
              e h
