-- ===== src/Fleet/Place/Choice.antt =====
-- Which worker `place` chooses.
use local_preview.Base.{
  ℕ, ◌≤◌, ◌≡◌, ◌⊎◌, inl, inr, refl, String, Bool, true, ◌&&◌, Option, none, some, List, [], ◌∷◌,
  arith, ltb, keep, All, All-map, Bool-cases, ltb→lt, ==_iff, ◌<◌, subst, sym,
}
use local_preview.Supervise.Keys.{Key}
use local_preview.Fleet.Registry.{Worker, Registry, PlacementKey, placement_key}
use local_preview.Fleet.Place.{
  is_placeable, has_room, take_heavier, top_weight_from, take_lighter, least_loaded_from, fallback,
  eligible, place_among, place,
}

-- What holds of a worker that was chosen, if one was.
abbrev pub Chosen : (Worker → Type 0) → Option Worker → Type 0
Chosen P none = Unit
Chosen P (some w) = P w

abbrev IsChosen : Option Worker → Type 0
IsChosen none = ⊥
IsChosen (some w) = Unit

All-keep : (p : Worker → Bool) (ws : List Worker) → All (λ w. p w ≡ true) (keep p ws)
All-keep p [] = tt
All-keep p (w ∷ ws) = ground (arith, All-keep p ws)

module _ (hrw : String → PlacementKey → ℕ) (key : PlacementKey) where
  module _ (P : Worker → Type 0) where
    top-Chosen :
        (best : Option Worker) (ws : List Worker)
        → Chosen P best
        → All P ws
        → Chosen P (top_weight_from hrw key best ws)
    unfolding top_weight_from take_heavier
    top-Chosen best [] c a = c
    top-Chosen none (w ∷ ws) c a = top-Chosen (some w) ws a.0 a.1
    top-Chosen (some b) (w ∷ ws) c a =
        top-Chosen (take_heavier hrw key (some b) w) ws (ground arith) a.1

    least-Chosen :
        (best : Option Worker) (ws : List Worker)
        → Chosen P best
        → All P ws
        → Chosen P (least_loaded_from hrw key best ws)
    unfolding least_loaded_from take_lighter
    least-Chosen best [] c a = c
    least-Chosen none (w ∷ ws) c a = least-Chosen (some w) ws a.0 a.1
    least-Chosen (some b) (w ∷ ws) c a =
        least-Chosen (take_lighter hrw key (some b) w) ws (ground arith) a.1

  top-above :
      (n : ℕ) (b : Worker) (ws : List Worker)
      → n ≤ hrw b.id key
      → Chosen (λ v. n ≤ hrw v.id key) (top_weight_from hrw key (some b) ws)
  unfolding top_weight_from take_heavier
  top-above n b [] c = c
  top-above n b (w ∷ ws) c = elim (Bool-cases (ltb (hrw b.id key) (hrw w.id key))) [
    | inl h ↦ rw h (top-above n w ws (ground (arith, ltb→lt _ _ h)))
    | inr h ↦ rw h (top-above n b ws c)
  ]

  -- The worker's weight is at least that of each of these.
  abbrev pub Outweighs : List Worker → Worker → Type 0
  Outweighs ws b = All (λ w. hrw w.id key ≤ hrw b.id key) ws

  top-Outweighs :
      (b : Worker) (ws : List Worker)
      → Chosen (Outweighs (b ∷ ws)) (top_weight_from hrw key (some b) ws)
  unfolding top_weight_from take_heavier
  top-Outweighs b [] = (omega arith, tt)
  top-Outweighs b (w ∷ ws) = elim (Bool-cases (ltb (hrw b.id key) (hrw w.id key))) [
    | inl h ↦ rw h (
        join (top_weight_from hrw key (some w) ws)
          (top-above (hrw b.id key) w ws (ground (arith, ltb→lt _ _ h))) (top-Outweighs w ws))
    | inr h ↦ rw h (
        beside (top_weight_from hrw key (some b) ws) (top-above (hrw w.id key) b ws (ground arith))
          (top-Outweighs b ws))
  ]
    where
      join :
          (o : Option Worker)
          → Chosen (λ v. hrw b.id key ≤ hrw v.id key) o
          → Chosen (Outweighs (w ∷ ws)) o
          → Chosen (Outweighs (b ∷ w ∷ ws)) o
      join none c d = tt
      join (some v) c d = (c, d)

      beside :
          (o : Option Worker)
          → Chosen (λ v. hrw w.id key ≤ hrw v.id key) o
          → Chosen (Outweighs (b ∷ ws)) o
          → Chosen (Outweighs (b ∷ w ∷ ws)) o
      beside none c d = tt
      beside (some v) c d = (d.0, (c, d.1))

abbrev pub IsAmong : Worker → List Worker → Type 0
IsAmong w [] = ⊥
IsAmong w (v ∷ vs) = (w ≡ v) ⊎ IsAmong w vs

All-IsAmong : (ws : List Worker) → All (λ w. IsAmong w ws) ws
All-IsAmong [] = tt
All-IsAmong (w ∷ ws) =
    (inl refl, All-map (λ v. IsAmong v ws) (λ v. IsAmong v (w ∷ ws)) (λ v. inr) ws (All-IsAmong ws))

IsAmong-keep :
    (p : Worker → Bool) (w : Worker) (ws : List Worker)
    → IsAmong w (keep p ws)
    → IsAmong w ws × (p w ≡ true)
IsAmong-keep p w [] h = absurd h
IsAmong-keep p w (v ∷ vs) h = ground (arith, IsAmong-keep p w vs)

top-IsChosen :
    (hrw : String → PlacementKey → ℕ) (key : PlacementKey) (b : Worker) (ws : List Worker)
    → IsChosen (top_weight_from hrw key (some b) ws)
unfolding top_weight_from take_heavier
top-IsChosen hrw key b [] = tt
top-IsChosen hrw key b (w ∷ ws) = elim (Bool-cases (ltb (hrw b.id key) (hrw w.id key))) [
  | inl h ↦ rw h (top-IsChosen hrw key w ws)
  | inr h ↦ rw h (top-IsChosen hrw key b ws)
]

-- The worker's state allows it and it has the most weight among those with room, if any has room.
abbrev pub IsRightPlace : (String → PlacementKey → ℕ) → Key → ℕ → Registry → Worker → Type 0
IsRightPlace hrw k now r w =
    IsAmong w r.workers
    × (is_placeable r.stale_after now w ≡ true)
    × ((((w.hb.max_warm ≡ 0) ⊎ (w.hb.running < w.hb.max_warm))
          × Outweighs hrw (placement_key k) (eligible r.stale_after now r.workers) w)
        ⊎ (eligible r.stale_after now r.workers ≡ []))

some_of : (o : Option Worker) → IsChosen o → (w : Worker) × (o ≡ some w)
some_of none i = absurd i
some_of (some w) i = (w, refl)

least-IsChosen :
    (hrw : String → PlacementKey → ℕ) (key : PlacementKey) (b : Option Worker) (ws : List Worker)
    → IsChosen b
    → IsChosen (least_loaded_from hrw key b ws)
unfolding least_loaded_from take_lighter
least-IsChosen hrw key b [] i = i
least-IsChosen hrw key none (w ∷ ws) i = absurd i
least-IsChosen hrw key (some b) (w ∷ ws) i =
    least-IsChosen hrw key (take_lighter hrw key (some b) w) ws (ground arith)

at_chosen : (P : Worker → Type 0) (o : Option Worker) (w : Worker) → o ≡ some w → Chosen P o → P w
at_chosen P o w e c = subst (Chosen P) e c

room_of : (w : Worker) → has_room w ≡ true → (w.hb.max_warm ≡ 0) ⊎ (w.hb.running < w.hb.max_warm)
room_of w h = ground (arith, ==_iff w.hb.max_warm 0, ltb→lt w.hb.running w.hb.max_warm)

module _ (hrw : String → PlacementKey → ℕ) (k : Key) (now : ℕ) (r : Registry) where
  abbrev key : PlacementKey
  key = placement_key k

  light_right :
      (v : Worker) (vs : List Worker)
      → fallback r.stale_after now r.workers ≡ v ∷ vs
      → eligible r.stale_after now r.workers ≡ []
      → (w : Worker) × (least_loaded_from hrw key none (v ∷ vs) ≡ some w)
        × IsRightPlace hrw k now r w
  unfolding least_loaded_from take_lighter
  light_right v vs f e =
      let found =
        some_of (least_loaded_from hrw key none (v ∷ vs)) (least-IsChosen hrw key (some v) vs tt) in
      let among =
        at_chosen (λ w. IsAmong w (v ∷ vs)) _ found.0 found.1
          (least-Chosen hrw key (λ w. IsAmong w (v ∷ vs)) none (v ∷ vs) tt
            (All-IsAmong (v ∷ vs))) in
      let kept =
        IsAmong-keep (is_placeable r.stale_after now) found.0 r.workers
          (subst (IsAmong found.0) (sym f) among) in
      (found.0, found.1, (kept.0, kept.1, inr e))

  heavy_right :
      (v : Worker) (vs : List Worker)
      → eligible r.stale_after now r.workers ≡ v ∷ vs
      → (w : Worker) × (top_weight_from hrw key none (v ∷ vs) ≡ some w) × IsRightPlace hrw k now r w
  unfolding top_weight_from take_heavier
  heavy_right v vs e =
      let found = some_of (top_weight_from hrw key none (v ∷ vs)) (top-IsChosen hrw key v vs) in
      let among =
        at_chosen (λ w. IsAmong w (v ∷ vs)) _ found.0 found.1
          (top-Chosen hrw key (λ w. IsAmong w (v ∷ vs)) none (v ∷ vs) tt (All-IsAmong (v ∷ vs))) in
      let kept =
        IsAmong-keep (λ w. is_placeable r.stale_after now w && has_room w) found.0 r.workers
          (subst (IsAmong found.0) (sym e) among) in
      let most =
        at_chosen (Outweighs hrw key (v ∷ vs)) _ found.0 found.1 (top-Outweighs hrw key v vs) in
      (
        found.0,
        found.1,
        (
          kept.0,
          ground (arith, kept.1),
          inl (
            room_of found.0 (ground (arith, kept.1)),
            subst (λ es. Outweighs hrw key es found.0) (sym e) most,
          ),
        ),
      )

  -- A placement fails only when no worker is fresh and not draining. Otherwise it chooses such a
  -- worker of the registry: if any of them has room, one with room whose rendezvous weight no other
  -- one with room exceeds.
  pub place_lem :
      ((place hrw k now r ≡ none) × (fallback r.stale_after now r.workers ≡ []))
      ⊎ ((w : Worker) × (place hrw k now r ≡ some w) × IsRightPlace hrw k now r w)
  unfolding place
  place_lem =
      right (eligible r.stale_after now r.workers) (fallback r.stale_after now r.workers) refl refl
    where
      right :
          (es others : List Worker)
          → eligible r.stale_after now r.workers ≡ es
          → fallback r.stale_after now r.workers ≡ others
          → ((place_among hrw key es others ≡ none) × (fallback r.stale_after now r.workers ≡ []))
            ⊎ ((w : Worker) × (place_among hrw key es others ≡ some w) × IsRightPlace hrw k now r w)
      right [] [] e f = inl (unfold least_loaded_from in refl, f)
      right [] (v ∷ vs) e f = inr (light_right v vs f e)
      right (v ∷ vs) others e f = inr (heavy_right v vs e)
