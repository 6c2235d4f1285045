-- ===== src/Tests/Fusion.antt =====
-- The witnesses of the graph states and of the constructions.
use empiricist.Base.{ℕ, zero, suc, ◌≡◌, refl, ◌+◌, Option, none, some, List, [], ◌∷◌, length, arith}
use empiricist.Base.Visits.{Holds}
use empiricist.Fusion.Graphs.{GraphState}
use empiricist.Fusion.Graphs.Edges.{IsGraph, adjacent}
use empiricist.Fusion.Local.{local_complement}
use empiricist.Fusion.Local.Bouchet.{IsComplement, local_complement_ok}
use empiricist.Fusion.Local.Involution.{local_complement_involutive}
use empiricist.Fusion.Orbit.{lc_orbit}
use empiricist.Fusion.Orbit.Closed.{Fails}
use empiricist.Fusion.Orbit.Whole.{IsOrbit, lc_orbit_ok}
use empiricist.Fusion.Construction.{Construction, fusion_op, local_complement_at, Engine}
use empiricist.Fusion.Moves.{leaf, merge_fresh_ghz3}
use empiricist.Fusion.Moves.Merging.{merged}
use empiricist.Fusion.Moves.Merged.{merge_fresh_ghz3_ok}

-- A star with three leaves.
abbrev star : GraphState
star = record { n = 4; edges = (0, 1) ∷ (0, 2) ∷ (0, 3) ∷ [] }

star-IsGraph : IsGraph star
star-IsGraph = record {
  increasing = ((refl, (refl, tt)), ((refl, tt), (tt, tt)));
  in_range =
      ((omega arith, omega arith), ((omega arith, omega arith), ((omega arith, omega arith), tt)));
}

local_complement_ok_example :
    (hs : GraphState) × (local_complement star 0 ≡ some hs) × IsComplement star 0 hs
local_complement_ok_example = local_complement_ok star 0 star-IsGraph

local_complement_involutive_example :
    (hs : GraphState) × (local_complement star 0 ≡ some hs) × (local_complement hs 0 ≡ some star)
local_complement_involutive_example = local_complement_involutive star 0 star-IsGraph

lc_orbit_ok_example : Holds (Fails star 10) (IsOrbit star 10) (lc_orbit star 10)
lc_orbit_ok_example = lc_orbit_ok star 10 star-IsGraph

-- An engine that only keeps the qubits, the last two of which a fusion takes.
abbrev pub first_two_off : List ℕ → Option (List ℕ)
first_two_off [] = none
first_two_off (a ∷ []) = none
first_two_off (a ∷ b ∷ qubits) = some qubits

abbrev pub ones : ℕ → List ℕ
ones zero = []
ones (suc n) = n ∷ ones n

abbrev pub counter : Engine (List ℕ)
counter = record {
  state_from_graph = λ g. some (ones g.n);
  fuse = λ qubits a b. first_two_off qubits;
  to_graphstate = λ qubits. some (record { n = length qubits; edges = [] });
  active = λ qubits. qubits;
}

abbrev pub chain : Construction
chain = record {
  resources = 2;
  steps = local_complement_at 0 ∷ fusion_op 1 3 ∷ [];
  target = record { n = 4; edges = [] };
}

merge_fresh_ghz3_ok_example :
    (hs : GraphState) × (merge_fresh_ghz3 star 0 leaf ≡ some hs)
    × (hs.n ≡ star.n + 1)
    × IsGraph hs
    × (adjacent hs 1 3 ≡ merged star 0 leaf 1 3)
merge_fresh_ghz3_ok_example =
    merge_fresh_ghz3_ok star 0 leaf 1 3 star-IsGraph (omega arith) refl (omega arith)
