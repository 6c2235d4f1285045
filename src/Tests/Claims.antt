-- ===== src/Tests/Claims.antt =====
-- The witnesses of the claims.
use empiricist.Base.{refl, none, List, [], ◌∷◌, All}
use empiricist.Ledger.Models.{Text}
use empiricist.Claims.Model.{
  Level, conjectured, certified, Dependency, claim_dependency, path_dependency, ClaimFile,
  level_cap, Caps, Attained, level_cap_ok,
}
use empiricist.Base.Visits.{Holds}
use empiricist.Claims.Graph.{Graph, topological_order}
use empiricist.Claims.Graph.Paths.{IsCycle}
use empiricist.Claims.Graph.Sorted.{IsOrder, topological_order_ok}
use empiricist.Claims.Standing.{Inputs, compute_standing}
use empiricist.Claims.Standing.Computed.{Ends, compute_standing_ok}

abbrev claim_file : Text → Level → List Dependency → ClaimFile
claim_file id level deps = record {
  id = id;
  statement = 9;
  level = level;
  n = none;
  coverage = none;
  depends_on = deps;
  supersedes = [];
  evidence = [];
  legacy_level = none;
}

abbrev top : ClaimFile
top = claim_file 2 certified (claim_dependency 1 ∷ path_dependency 7 ∷ [])

abbrev claims : List ClaimFile
claims = claim_file 1 conjectured [] ∷ top ∷ []

-- The lock does not match the files of any claim.
abbrev inputs : Inputs
inputs = record { lock_mismatches = λ id. id ∷ []; registry_newer = none }

abbrev graph : Graph
graph = (1, []) ∷ (2, 1 ∷ []) ∷ []

topological_order_ok_example : Holds (IsCycle graph) (IsOrder graph) (topological_order graph)
topological_order_ok_example = topological_order_ok graph (tt, ((refl, tt), tt))

compute_standing_ok_example : Ends claims (compute_standing inputs claims [])
compute_standing_ok_example = compute_standing_ok inputs claims []

level_cap_ok_example :
    All (Caps claims (level_cap top claims).0) top.depends_on
    × Attained claims top.depends_on (level_cap top claims)
level_cap_ok_example = level_cap_ok top claims
