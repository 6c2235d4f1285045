-- ===== src/Claims/Standing/Computed.antt =====
-- `compute_standing` as a whole.
use empiricist.Base.{
  ◌≡◌, refl, sym, ◌∙◌, subst, ◌⊎◌, inl, inr, Bool, true, false, not, ◌&&◌, ◌||◌, List, [], ◌∷◌, map,
  any, all, is_some, All, All-map, arith, Bool-cases, ◌==◌,
}
use empiricist.Ledger.Models.{Text}
use empiricist.Claims.Model.{Standing, ClaimFile, claim_of}
use empiricist.Base.Visits.{Visit, going, stopped, out_of_fuel}
use empiricist.Claims.Graph.{Graph, is_in, deps, keys, topological_order}
use empiricist.Base.Visits.{Holds}
use empiricist.Claims.Graph.Paths.{IsCycle}
use empiricist.Claims.Graph.Order.{IsTopological}
use empiricist.Claims.Graph.Sorted.{IsOrder, topological_order_ok}
use empiricist.Claims.Standing.{
  Receipt, Inputs, claim_ids, knows, dependency_graph, is_refuted_at, is_current_standing, walk,
  Outcome, standings, unknown_id, cyclic, key_error, no_fuel, returned, dependency_graph,
  compute_standing,
}
use empiricist.Claims.Standing.Current.{Justified, is_set_back, deps_at, walk_ok}

-- The graph of the claims.
abbrev pub graph_of : List ClaimFile → Graph
graph_of claims = map (λ c. (c.id, claim_ids c.depends_on)) claims

-- Every id that a claim depends on or supersedes is a claim's.
abbrev pub knows_all : List ClaimFile → List ClaimFile → Bool
knows_all claims cs =
    all (λ c. all (knows claims) (claim_ids c.depends_on) && all (knows claims) c.supersedes) cs

-- Some entry of the id is CURRENT.
abbrev pub is_current_in : Text → List (Text × Standing) → Bool
is_current_in d out = any (λ e. e.0 == d && is_current_standing e.1) out

-- An entry that is CURRENT has only dependencies that are CURRENT and not REFUTED.
abbrev pub IsSupported : List ClaimFile → List (Text × Standing) → List (Text × Standing) → Type 0
IsSupported claims all_entries [] = Unit
IsSupported claims all_entries ((id, s) ∷ out) =
    ((is_current_standing s ≡ false)
      ⊎ All (λ d. (is_current_in d all_entries && not (is_refuted_at (claim_of d claims))) ≡ true)
          (deps_at claims id))
    × IsSupported claims all_entries out

deps-graph_of :
    (claims : List ClaimFile) (id : Text) → deps (graph_of claims) id ≡ deps_at claims id
deps-graph_of [] id = refl
deps-graph_of (c ∷ cs) id = elim (Bool-cases (c.id == id)) [
  | inl same ↦ ground (arith, same)
  | inr differs ↦ ground (arith, differs, deps-graph_of cs id)
]

knows-keys :
    (claims : List ClaimFile) (id : Text) → is_in id (keys (graph_of claims)) ≡ knows claims id
knows-keys [] id = refl
knows-keys (c ∷ cs) id = elim (Bool-cases (c.id == id)) [
  | inl same ↦ ground (arith, same)
  | inr differs ↦ ground (arith, differs, knows-keys cs id)
]

all-All : {A : Type 0} (f : A → Bool) (xs : List A) → all f xs ≡ true → All (λ x. f x ≡ true) xs
all-All f [] h = tt
all-All f (x ∷ xs) h = (ground (arith, h), all-All f xs (ground (arith, h)))

knows_all-IsClosed :
    (claims cs : List ClaimFile)
    → knows_all claims cs ≡ true
    → All (λ e. All (λ d. is_in d (keys (graph_of claims)) ≡ true) e.1) (graph_of cs)
knows_all-IsClosed claims [] h = tt
knows_all-IsClosed claims (c ∷ cs) h = (
  All-map _ (λ d. is_in d (keys (graph_of claims)) ≡ true) (claim_ids c.depends_on)
      (λ d k. knows-keys claims d ∙ k)
      (all-All (knows claims) (claim_ids c.depends_on) (ground (arith, h))),
  knows_all-IsClosed claims cs (ground (arith, h)),
)

-- What is placed before and not set back is CURRENT.
kept_current :
    (d : Text) (seen : List (Text × Standing))
    → is_in d (map (λ e. e.0) seen) ≡ true
    → any (is_set_back d) seen ≡ false
    → is_current_in d seen ≡ true
kept_current d [] m h = cc
kept_current d ((id, s) ∷ seen) m h = elim (Bool-cases (id == d)) [
  | inl same ↦ ground (arith, same, h)
  | inr differs ↦ ground (
    arith,
    differs,
    kept_current d seen (ground (arith, m, differs)) (ground (arith, h, differs)),
  )
]

abbrev IsHeld : List ClaimFile → List (Text × Standing) → Text → Type 0
IsHeld claims whole d = (is_current_in d whole && not (is_refuted_at (claim_of d claims))) ≡ true

All-both :
    {A : Type 0} (P Q R : A → Type 0) (xs : List A)
    → ((x : A) → P x → Q x → R x)
    → All P xs
    → All Q xs
    → All R xs
All-both P Q R [] f hs ks = tt
All-both P Q R (x ∷ xs) f (h, hs) (k, ks) = (f x h k, All-both P Q R xs f hs ks)

Justified-IsSupported :
    (claims : List ClaimFile) (whole seen out : List (Text × Standing))
    → Justified claims seen out
    → IsTopological (graph_of claims) (map (λ e. e.0) seen) (map (λ e. e.0) out)
    → ((d : Text)
        → (is_current_in d seen || is_current_in d out) ≡ true
        → is_current_in d whole ≡ true)
    → IsSupported claims whole out
Justified-IsSupported claims whole seen [] just topo h = tt
Justified-IsSupported claims whole seen ((id, s) ∷ out) (just, justs) (ds, own, topo) h = (
  elim just [
    | inl other ↦ inl other
    | inr firm ↦ inr (
        All-both (λ d. (any (is_set_back d) seen || is_refuted_at (claim_of d claims)) ≡ false)
          (λ d. is_in d (map (λ e. e.0) seen) ≡ true) (IsHeld claims whole) (deps_at claims id)
          (λ d f m.
            ground (arith, f, h d (ground (arith, kept_current d seen m (ground (arith, f))))))
          firm
          (subst (λ l. All (λ d. is_in d (map (λ e. e.0) seen) ≡ true) l) (deps-graph_of claims id)
            ds))
  ],
  Justified-IsSupported claims whole ((id, s) ∷ seen) out justs topo
      (λ d m. h d (ground (arith, m))),
)

-- What each outcome of `compute_standing` means; the last two do not occur.
abbrev pub Ends : List ClaimFile → Outcome → Type 0
Ends claims (standings out) =
    IsOrder (graph_of claims) (map (λ e. e.0) out) × IsSupported claims out out
Ends claims unknown_id = knows_all claims claims ≡ false
Ends claims (cyclic cycle) = IsCycle (graph_of claims) cycle
Ends claims key_error = ⊥
Ends claims no_fuel = ⊥

walked-Ends :
    (inputs : Inputs) (claims : List ClaimFile) (receipts : List Receipt) (order : List Text)
    → IsOrder (graph_of claims) order
    → Ends claims (returned (walk inputs claims receipts [] order))
walked-Ends inputs claims receipts order h =
    let (out, walked, just, ids) = walk_ok inputs claims receipts order (
      All-map _ (λ id. is_some (claim_of id claims) ≡ true) order
        (λ id k. sym (knows-keys claims id) ∙ k) h.only_keys) in
    let h' : IsOrder (graph_of claims) (map (λ e. e.0) out) =
      subst (IsOrder (graph_of claims)) (sym ids) h in
    subst (λ o. Ends claims (returned o)) (sym walked)
      (h', Justified-IsSupported claims out [] out just h'.topological (λ d m. ground (arith, m)))

-- `compute_standing` always returns or raises one of the two errors. It raises for an unknown id
-- only if some claim depends on or supersedes an id that no claim has, and for a cycle only with a
-- cycle of dependencies. What it returns has exactly the claims, each once and after its
-- dependencies, and where an entry is CURRENT, all claims that it depends on have a CURRENT entry
-- and none of them is REFUTED.
pub compute_standing_ok :
    (inputs : Inputs) (claims : List ClaimFile) (receipts : List Receipt)
    → Ends claims (compute_standing inputs claims receipts)
unfolding compute_standing dependency_graph
compute_standing_ok inputs claims receipts = elim (Bool-cases (knows_all claims claims)) [
  | inr unknown ↦ subst (Ends claims) (sym (stuck unknown)) unknown
  | inl known ↦ subst (Ends claims) (sym (built known)) (
      finish (topological_order (graph_of claims))
        (topological_order_ok (graph_of claims) (knows_all-IsClosed claims claims known)))
]
  where
    sorted_walk : Visit (List Text) (List Text) → Outcome
    sorted_walk (going order) = returned (walk inputs claims receipts [] order)
    sorted_walk (stopped cycle) = cyclic cycle
    sorted_walk out_of_fuel = no_fuel

    stuck : knows_all claims claims ≡ false → compute_standing inputs claims receipts ≡ unknown_id
    stuck unknown = ground (arith, unknown)

    built :
        knows_all claims claims ≡ true
        → compute_standing inputs claims receipts
          ≡ sorted_walk (topological_order (graph_of claims))
    built known = ground (arith, known)

    finish :
        (v : Visit (List Text) (List Text))
        → Holds (IsCycle (graph_of claims)) (IsOrder (graph_of claims)) v
        → Ends claims (sorted_walk v)
    finish (going order) h = walked-Ends inputs claims receipts order h
    finish (stopped cycle) h = h
    finish out_of_fuel h = elim h [ ]
