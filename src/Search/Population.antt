-- ===== src/Search/Population.antt =====
-- src/empiricist/search/database.py: the best known construction for each orbit key.
pub mod Elites
use empiricist.Base.{
  ℕ, ◌+◌, Bool, true, false, Option, none, some, List, [], ◌∷◌, ◌++◌, find, keep, update, sort_by,
  length, ◌==◌, if◌then◌else◌,
}
use empiricist.Ledger.Models.{Text}
use empiricist.Ledger.Tables.{
  Vector, PopulationRow, EvictedRow, SearchEvent, Action, pure, select, ◌>>=◌, ◌>>◌, write,
  transaction,
}
use empiricist.Ledger.Objective.{vec_lt}

abbrev pub find_elite : Text → List PopulationRow → Option PopulationRow
find_elite key rows = find (λ r. r.lc_orbit_key == key) rows

-- A candidate that `consider` is called with.
pub record Candidate : Type 0 where
  pub key : Text
  pub island : ℕ
  pub cell : Text
  pub vec : Vector
  pub cert_hash : Text

abbrev fresh_row : Candidate → PopulationRow
fresh_row c = record {
  lc_orbit_key = c.key;
  island = c.island;
  cell = c.cell;
  objective_vec = c.vec;
  cert_hash = c.cert_hash;
  hit_count = 1;
}

abbrev hit : PopulationRow → PopulationRow
hit r = record r { hit_count = r.hit_count + 1 }

abbrev replaced : Candidate → PopulationRow → PopulationRow
replaced c r = record r {
  island = c.island;
  cell = c.cell;
  objective_vec = c.vec;
  cert_hash = c.cert_hash;
  hit_count = 1;
}

module _ (improved : Text) (now : Text) where
  abbrev eviction : Candidate → EvictedRow
  eviction c = record {
    lc_orbit_key = c.key;
    reason = improved;
    dominated_by = c.cert_hash;
    ts = now;
  }

  -- The three outcomes, by the row that the key has.
  unfoldable pub store : Candidate → Option PopulationRow → Action Bool
  store c none d =
      (write (λ d. record d { population = d.population ++ fresh_row c ∷ [] }) >> pure true) d
  store c (some r) d =
      if vec_lt c.vec r.objective_vec
      then (write (λ d. record d {
        population = update (λ s. s.lc_orbit_key == c.key) (replaced c) d.population;
      })
            >> write (λ d. record d { evicted = d.evicted ++ eviction c ∷ [] })
            >> pure true)
          d
      else (write (λ d. record d {
        population = update (λ s. s.lc_orbit_key == c.key) hit d.population;
      })
            >> pure false)
          d

  -- `Population.consider`; `improved` is the reason's text.
  unfoldable pub consider : Candidate → Action Bool
  unfolding store
  consider c = transaction do row ← select (λ d. find_elite c.key d.population); store c row

-- `Population.get`, `Population.count` and `Population.log_event`
unfoldable get : Text → Action (Option PopulationRow)
get key = select (λ d. find_elite key d.population)

pub count : Action ℕ
count = select (λ d. length d.population)

unfoldable pub log_event : SearchEvent → Action (Unit {0})
log_event e = transaction (write (λ d. record d { search_events = d.search_events ++ e ∷ [] }))

abbrev is_trigger : Option Text → SearchEvent → Bool
is_trigger none e = true
is_trigger (some t) e = e.trigger == t

-- `Population.events`
unfoldable events : Option Text → Action (List SearchEvent)
events trigger = select (λ d. sort_by (λ e. e.ts) (keep (is_trigger trigger) d.search_events))
