-- ===== src/Fusion/Orbit/Closed.antt =====
-- The rounds of the orbit search and their invariant.
use empiricist.Base.{
  ℕ, ◌+◌, ◌<◌, ◌≤◌, max, ◌≡◌, refl, ◌⊎◌, inl, inr, Bool, true, false, ◌||◌, some, List, [], ◌∷◌,
  ◌++◌, length, ltb, leb, All, All-map, arith, Bool-cases,
}
use empiricist.Base.Pairwise.{All-snoc, Pairwise-snoc, All-any}
use empiricist.Base.Visits.{Holds}
use empiricist.Fusion.Graphs.{GraphState}
use empiricist.Fusion.Graphs.Edges.{IsGraph}
use empiricist.Fusion.Local.{local_complement}
use empiricist.Fusion.Local.Bouchet.{local_complement_ok}
use empiricist.Fusion.Orbit.{
  OrbitError, orbit_too_large, value_error, is_same, is_member, Search, turn, range_from,
}
use empiricist.Fusion.Orbit.Members.{
  is_same_refl, is_same_sym, is_member-snoc, length-snoc, IsDistinct,
}

-- What local complementations at vertices make of a graph state.
pub data Reached (gs : GraphState) : GraphState → Type 0 where
  start : Reached gs gs
  step :
      {g h : GraphState} (v : ℕ)
      → Reached gs g
      → ltb v g.n ≡ true
      → local_complement g v ≡ some h
      → Reached gs h

-- Every local complement of the graph state is in the list.
abbrev pub Closed : GraphState → List GraphState → Type 0
Closed g seen =
    All (λ v. (h : GraphState) × (local_complement g v ≡ some h) × (is_member h seen ≡ true))
      (range_from 0 g.n)

module _ (gs : GraphState) where
  abbrev pub Found : GraphState → Type 0
  Found g = Reached gs g × IsGraph g

  -- There are more graph states in the orbit than the cap.
  pub record Exceeds (limit : ℕ) : Type 0 where
    pub found : List GraphState
    pub all_found : All (Reached gs) found
    pub distinct : IsDistinct found
    pub more : limit < length found

  abbrev pub Fails : ℕ → OrbitError → Type 0
  Fails limit orbit_too_large = Exceeds limit
  Fails limit value_error = ⊥

  -- `g` is the graph state whose local complements are being looked at, if any.
  pub record Inv (limit : ℕ) (busy : GraphState → Bool) (s : Search) : Type 0 where
    pub found : All Found s.seen
    pub distinct : IsDistinct s.seen
    pub queued : All (λ g. is_member g s.seen ≡ true) s.queue
    pub small : length s.seen ≤ max limit 1
    pub handled :
        (x : GraphState)
        → is_member x s.seen ≡ true
        → ((busy x || is_member x s.queue) ≡ true) ⊎ Closed x s.seen

  pub record Grown (s t : Search) : Type 0 where
    pub kept : (x : GraphState) → is_member x s.seen ≡ true → is_member x t.seen ≡ true
    pub balance : length t.queue + length s.seen ≡ length s.queue + length t.seen

  pub Grown_refl : (s : Search) → Grown s s
  Grown_refl s = record { kept = λ x m. m; balance = refl }

  pub Grown_trans : (s t u : Search) → Grown s t → Grown t u → Grown s u
  Grown_trans s t u p q = record {
    kept = λ x m. q.kept x (p.kept x m);
    balance = omega (arith, p.balance, q.balance);
  }

  Closed-mono :
      (g : GraphState) (xs ys : List GraphState)
      → ((x : GraphState) → is_member x xs ≡ true → is_member x ys ≡ true)
      → Closed g xs
      → Closed g ys
  Closed-mono g xs ys f h = All-map _ _ (range_from 0 g.n) (λ v (k, e, m). (k, e, f k m)) h

  abbrev added : GraphState → Search → Search
  added h s = record { seen = s.seen ++ h ∷ []; queue = s.queue ++ h ∷ [] }

  Grown-added : (h : GraphState) (s : Search) → Grown s (added h s)
  Grown-added h s = record {
    kept = λ x m. rw (is_member-snoc x h s.seen, m) refl;
    balance = omega (arith, length-snoc h s.seen, length-snoc h s.queue);
  }

  Inv-added :
      (limit : ℕ) (busy : GraphState → Bool) (h : GraphState) (s : Search)
      → Inv limit busy s
      → Found h
      → is_member h s.seen ≡ false
      → leb limit (length s.seen) ≡ false
      → Inv limit busy (added h s)
  Inv-added limit busy h s inv hit fresh room = record {
    found = All-snoc Found s.seen h inv.found hit;
    distinct =
        Pairwise-snoc (λ x y. is_same x y ≡ false) s.seen h inv.distinct
          (All-map _ (λ x. is_same x h ≡ false) s.seen (λ x e. is_same_sym h x e)
            (All-any (is_same h) s.seen fresh));
    queued =
        All-snoc (λ x. is_member x (s.seen ++ h ∷ []) ≡ true) s.queue h
          (All-map (λ x. is_member x s.seen ≡ true) (λ x. is_member x (s.seen ++ h ∷ []) ≡ true)
            s.queue (Grown-added h s).kept inv.queued)
          (rw (is_member-snoc h h s.seen, is_same_refl h) (right (is_member h s.seen)));
    small = ground (arith, room, length-snoc h s.seen);
    handled = λ x m. elim (Bool-cases (is_member x s.seen)) [
      | inl old ↦ elim (inv.handled x old) [
        | inl waiting ↦ inl (ground (arith, waiting, is_member-snoc x h s.queue))
        | inr closed ↦ inr (Closed-mono x s.seen (s.seen ++ h ∷ []) (Grown-added h s).kept closed)
      ]
      | inr new ↦
          inl (ground (arith, new, m, is_member-snoc x h s.seen, is_member-snoc x h s.queue))
    ];
  }
    where
      right : (b : Bool) → (b || true) ≡ true
      right b = ground arith

  -- What a look at a vertex does.
  abbrev pub Looked : ℕ → (GraphState → Bool) → GraphState → ℕ → Search → Search → Type 0
  Looked limit busy g v s t =
      Inv limit busy t
      × Grown s t
      × ((h : GraphState) × (local_complement g v ≡ some h) × (is_member h t.seen ≡ true))

  pub turn-Holds :
      (limit : ℕ) (busy : GraphState → Bool) (g : GraphState) (v : ℕ) (s : Search)
      → Found g
      → ltb v g.n ≡ true
      → Inv limit busy s
      → Holds (Fails limit) (Looked limit busy g v s) (turn limit g v s)
  unfolding turn
  turn-Holds limit busy g v s (reached, graph) below inv =
      let (h, made, k) = local_complement_ok g v graph in
      let hit : Found h = (step v reached below made, k.graph) in
      rw made (elim (Bool-cases (is_member h s.seen)) [
        | inl old ↦ rw old (inv, Grown_refl s, (h, made, old))
        | inr new ↦ elim (Bool-cases (leb limit (length s.seen))) [
          | inl full ↦
              rw (new, full)
                (record {
                  found = s.seen ++ h ∷ [];
                  all_found =
                      All-snoc (Reached gs) s.seen h
                        (All-map Found (Reached gs) s.seen (λ x f. f.0) inv.found) hit.0;
                  distinct =
                      Pairwise-snoc (λ x y. is_same x y ≡ false) s.seen h inv.distinct
                        (All-map _ (λ x. is_same x h ≡ false) s.seen (λ x e. is_same_sym h x e)
                          (All-any (is_same h) s.seen new));
                  more = ground (arith, full, length-snoc h s.seen);
                })
          | inr room ↦
              rw (new, room)
                (
                  Inv-added limit busy h s inv hit new room,
                  Grown-added h s,
                  (
                    h,
                    made,
                    rw (is_member-snoc h h s.seen, is_same_refl h) (right (is_member h s.seen)),
                  ),
                )
        ]
      ])
    where
      right : (b : Bool) → (b || true) ≡ true
      right b = ground arith
