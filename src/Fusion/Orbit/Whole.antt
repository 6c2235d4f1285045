-- ===== src/Fusion/Orbit/Whole.antt =====
-- The outcome of `lc_orbit`.
use empiricist.Base.{
  ℕ, zero, suc, ◌+◌, ◌<◌, ◌≤◌, max, ◌≡◌, refl, sym, ◌∙◌, subst, inl, inr, Bool, true, false, some,
  List, [], ◌∷◌, length, ltb, All, All-map, arith, Bool-cases, ◌↔◌,
}
use empiricist.Base.Visits.{
  Visit, going, stopped, out_of_fuel, each, Holds, Holds-continue, each-Holds,
}
use empiricist.Fusion.Graphs.{GraphState}
use empiricist.Fusion.Graphs.Edges.{IsGraph}
use empiricist.Fusion.Local.{local_complement}
use empiricist.Fusion.Orbit.{
  OrbitError, is_same, is_member, Search, turn, range_from, explore, lc_orbit,
}
use empiricist.Fusion.Orbit.Members.{
  is_same_refl, is_same_eq, member_get, range_get, range_below, IsDistinct, is_member-sort_graphs,
  length-sort_graphs, IsDistinct-sort_graphs,
}
use empiricist.Fusion.Orbit.Closed.{
  Reached, start, step, Closed, Found, Fails, Inv, Grown, Grown_refl, Grown_trans, turn-Holds,
}

abbrev idle : GraphState → Bool
idle x = false

module _ (gs : GraphState) (limit : ℕ) where
  -- The search is over: it has found graph states of the orbit only, and what they lead to.
  abbrev Over : List GraphState → Type 0
  Over seen =
      All (Found gs) seen
      × IsDistinct seen
      × (length seen ≤ max limit 1)
      × (is_member gs seen ≡ true)
      × ((x : GraphState) → is_member x seen ≡ true → Closed x seen)

  round :
      (g : GraphState) (rest seen : List GraphState)
      → Inv gs limit idle (record { seen = seen; queue = g ∷ rest })
      → Holds
          (Fails gs limit)
          (λ t. Inv gs limit idle t × Grown gs (record { seen = seen; queue = rest }) t)
          (each (turn limit g) (range_from 0 g.n) (record { seen = seen; queue = rest }))
  round g rest seen inv = widen (each (turn limit g) (range_from 0 g.n) s) (
      each-Holds (Fails gs limit) (Inv gs limit (is_same g)) (Grown gs) (λ v. ltb v g.n ≡ true)
        (λ v t. (h : GraphState) × (local_complement g v ≡ some h) × (is_member h t.seen ≡ true))
        (Grown_refl gs) (Grown_trans gs) (λ v t u r (h, e, m). (h, e, r.kept h m)) (turn limit g)
        (λ v t below i. turn-Holds gs limit (is_same g) g v t found below i) (range_from 0 g.n) s
        (All-map _ (λ v. ltb v g.n ≡ true) (range_from 0 g.n) (λ v h. ground (arith, h))
          (range_below 0 g.n))
        begun)
    where
      s : Search
      s = record { seen = seen; queue = rest }

      found : Found gs g
      found = member_get (Found gs) g seen inv.found inv.queued.0

      begun : Inv gs limit (is_same g) s
      begun = record {
        found = inv.found;
        distinct = inv.distinct;
        queued = inv.queued.1;
        small = inv.small;
        handled = λ x m. elim (inv.handled x m) [
          | inl waiting ↦ elim (Bool-cases (is_same x g)) [
            | inl hit ↦ inl (
                rw (subst (λ y. is_same g y ≡ true) (sym (is_same_eq x g hit)) (is_same_refl g))
                  refl)
            | inr miss ↦ inl (ground (arith, waiting, miss))
          ]
          | inr closed ↦ inr closed
        ];
      }

      widen :
          (v : Visit OrbitError Search)
          → Holds
              (Fails gs limit)
              (λ t.
                Inv gs limit (is_same g) t
                × Grown gs s t
                × All
                    (λ v.
                      (h : GraphState) × (local_complement g v ≡ some h)
                      × (is_member h t.seen ≡ true))
                    (range_from 0 g.n))
              v
          → Holds (Fails gs limit) (λ t. Inv gs limit idle t × Grown gs s t) v
      widen (going t) (i, r, closed) = (
        record {
          found = i.found;
          distinct = i.distinct;
          queued = i.queued;
          small = i.small;
          handled = λ x m. elim (i.handled x m) [
            | inl waiting ↦ elim (Bool-cases (is_same g x)) [
              | inl hit ↦ inr (subst (λ y. Closed y t.seen) (is_same_eq g x hit) closed)
              | inr miss ↦ inl (ground (arith, waiting, miss))
            ]
            | inr done ↦ inr done
          ];
        },
        r,
      )
      widen (stopped e) h = h
      widen out_of_fuel h = elim h [ ]

  explore-Holds :
      (fuel : ℕ) (seen queue : List GraphState)
      → max limit 1 + length queue < fuel + length seen
      → is_member gs seen ≡ true
      → Inv gs limit idle (record { seen = seen; queue = queue })
      → Holds (Fails gs limit) Over (explore limit fuel (record { seen = seen; queue = queue }))
  unfolding explore
  explore-Holds zero seen queue enough first inv = absurd (omega (arith, enough, inv.small))
  explore-Holds (suc fuel) seen [] enough first inv = (
    inv.found,
    inv.distinct,
    inv.small,
    first,
    λ x m. elim (inv.handled x m) [
      | inl waiting ↦ absurd (ground (arith, waiting))
      | inr closed ↦ closed
    ],
  )
  explore-Holds (suc fuel) seen (g ∷ rest) enough first inv =
      Holds-continue (Fails gs limit)
        (λ t. Inv gs limit idle t × Grown gs (record { seen = seen; queue = rest }) t) Over
        (each (turn limit g) (range_from 0 g.n) (record { seen = seen; queue = rest }))
        (explore limit fuel) (round g rest seen inv)
        λ t (i, r).
          explore-Holds fuel t.seen t.queue (omega (arith, enough, r.balance)) (r.kept gs first) i

-- What `lc_orbit` returns: exactly the graph states that local complementations at vertices make of
-- the given one, each once, and not more than the cap (or one).
pub record IsOrbit (gs : GraphState) (limit : ℕ) (orbit : List GraphState) : Type 0 where
  pub exactly : (h : GraphState) → (is_member h orbit ≡ true) ↔ Reached gs h
  pub distinct : IsDistinct orbit
  pub small : length orbit ≤ max limit 1

reached-member :
    (gs : GraphState) (seen : List GraphState) (h : GraphState)
    → is_member gs seen ≡ true
    → ((x : GraphState) → is_member x seen ≡ true → Closed x seen)
    → Reached gs h
    → is_member h seen ≡ true
reached-member gs seen h first closed start = first
reached-member gs seen h first closed (step {g} v r below e) =
    let (k, e', m) =
      range_get
        (λ v. (k : GraphState) × (local_complement g v ≡ some k) × (is_member k seen ≡ true)) v 0
        g.n (closed g (reached-member gs seen g first closed r)) (ground arith)
        (ground (arith, below)) in
    let at : k ≡ h = ground (arith, e, e') in subst (λ x. is_member x seen ≡ true) at m

-- `lc_orbit` on a graph state always ends. It returns exactly the orbit under local
-- complementation, each graph state of it once, and no more of them than the cap, or one; or it
-- raises OrbitTooLarge, and then the orbit has more graph states than the cap. No other error is
-- raised.
pub lc_orbit_ok :
    (gs : GraphState) (limit : ℕ)
    → IsGraph gs
    → Holds (Fails gs limit) (IsOrbit gs limit) (lc_orbit gs limit)
unfolding lc_orbit
lc_orbit_ok gs limit graph =
    Holds-continue (Fails gs limit) (Over gs limit) (IsOrbit gs limit)
      (explore limit (limit + 2) (record { seen = gs ∷ []; queue = gs ∷ [] })) _
      (explore-Holds gs limit (limit + 2) (gs ∷ []) (gs ∷ []) (ground arith)
        (ground (arith, is_same_refl gs))
        (record {
          found = ((start, graph), tt);
          distinct = (tt, tt);
          queued = (ground (arith, is_same_refl gs), tt);
          small = ground arith;
          handled = λ x m. inl m;
        }))
      λ seen (found, distinct, small, first, closed). record {
        exactly = λ h. (
          λ m. (member_get (Found gs) h seen found (sym (is_member-sort_graphs h seen) ∙ m)).0,
          λ r. is_member-sort_graphs h seen ∙ reached-member gs seen h first closed r,
        );
        distinct = IsDistinct-sort_graphs seen distinct;
        small = rw (length-sort_graphs seen) small;
      }
