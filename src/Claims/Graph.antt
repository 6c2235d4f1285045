-- ===== src/Claims/Graph.antt =====
-- The dependency graph of the claims: `find_cycle` and `topological_order` of
-- src/empiricist/claims/standing.py. A recursive `visit` is given fuel; running out of it is an
-- outcome of its own, and one more than the number of claims is enough.
pub mod Paths
pub mod Cycles
pub mod Order
pub mod Placing
pub mod Sorted
use empiricist.Base.{
  ℕ, zero, suc, ◌+◌, Bool, true, false, not, ◌&&◌, Option, none, some, List, [], ◌∷◌, ◌++◌, map,
  find, any, length, sort_by, ◌==◌, if◌then◌else◌,
}
use mathlib.Core.List.{reverse}
use empiricist.Base.Visits.{Visit, going, stopped, out_of_fuel, continue, each}
use empiricist.Ledger.Models.{Text}

abbrev pub Graph : Type 0
Graph = List (Text × List Text)

abbrev pub is_in : Text → List Text → Bool
is_in x xs = any (λ y. y == x) xs

abbrev deps_of : Option (Text × List Text) → List Text
deps_of none = []
deps_of (some (_, ds)) = ds

-- `graph.get(node, ())`
abbrev pub deps : Graph → Text → List Text
deps g node = deps_of (find (λ e. e.0 == node) g)

abbrev pub keys : Graph → List Text
keys g = map (λ e. e.0) g

-- The nodes of state 1, which are those of the stack, the last one first, and those of state 2.
pub record Marks : Type 0 where
  pub stack : List Text
  pub done : List Text

abbrev pub is_unmarked : Text → Marks → Bool
is_unmarked node s = not (is_in node s.stack) && not (is_in node s.done)

-- The part of the stack from the node on.
pub down_to : Text → List Text → List Text
down_to node [] = []
down_to node (x ∷ xs) = if x == node then x ∷ [] else x ∷ down_to node xs

-- `stack[stack.index(nxt):] + [nxt]`
abbrev pub closing : Text → List Text → List Text
closing nxt stack = reverse (nxt ∷ down_to nxt stack)

abbrev pub popped : List Text → List Text
popped [] = []
popped (_ ∷ xs) = xs

abbrev pub push : Text → Marks → Marks
push node s = record s { stack = node ∷ s.stack }

abbrev pub close : Text → Marks → Marks
close node s = record { stack = popped s.stack; done = node ∷ s.done }

-- The body of the loop over the dependencies, by the visit of a node that is unmarked.
abbrev pub look_at :
    (Text → Marks → Visit (List Text) Marks) → Text → Marks → Visit (List Text) Marks
look_at visit nxt s =
    if is_in nxt s.stack
    then stopped (closing nxt s.stack)
    else if is_unmarked nxt s
    then visit nxt s
    else going s

pub visit : Graph → ℕ → Text → Marks → Visit (List Text) Marks
unfolding each down_to
visit g zero node s = out_of_fuel
visit g (suc fuel) node s =
    continue (each (look_at (visit g fuel)) (deps g node) (push node s)) λ s'. going (close node s')

abbrev pub visit_unmarked : Graph → ℕ → Text → Marks → Visit (List Text) Marks
visit_unmarked g fuel node s = if is_unmarked node s then visit g fuel node s else going s

-- `find_cycle`: it stops with a cycle, or goes through all nodes.
pub find_cycle : Graph → Visit (List Text) Marks
unfolding visit each
find_cycle g = each (visit_unmarked g (length g + 1)) (keys g) (record { stack = []; done = [] })

-- The state of the second traversal.
pub record Placed : Type 0 where
  pub seen : List Text
  pub order : List Text

pub place : {A : Type 0} → Graph → ℕ → Text → Placed → Visit A Placed
unfolding each
place g zero node s = out_of_fuel
place g (suc fuel) node s =
    if is_in node s.seen
    then going s
    else continue (each (place g fuel) (deps g node) (record s { seen = node ∷ s.seen }))
        λ s'. going (record s' { order = s'.order ++ node ∷ [] })

-- `topological_order`; it stops with the cycle that it raises.
pub topological_order : Graph → Visit (List Text) (List Text)
unfolding find_cycle place
topological_order g = continue (find_cycle g) λ _.
    continue
      (each (place g (length g + 1)) (sort_by (λ x. x) (keys g)) (record { seen = []; order = [] }))
      λ s. going s.order
