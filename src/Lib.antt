-- ===== src/Lib.antt =====
-- The epistemic ledger of empiricist, the search state that it holds, the scheduler of a campaign,
-- the standing of claims, graph states with their constructions and the verifiers of these, the
-- store of contents, rate limits, and the termination check of rewrite rules.
--
-- A campaign proposes mathematical artifacts, has verifiers judge them, and keeps what they found
-- in a SQLite ledger. The ledger is the part that all others go through: search and conjecturing
-- add artifacts and evidence, the gates park what waits for a person, the runs account for the
-- cost, the Pareto frontier and the population hold the best constructions, and the scheduler
-- decides which move comes next and when the campaign stops. The claims of a repository are files
-- that are promoted from the ledger; their standing is computed from their dependencies and
-- reviews. An artifact's content lies in a store under its hash. A construction of a graph state
-- by fusions is judged by two verifiers, one per engine, which run only while the registry has
-- certified them, and whose keys must agree.
--
--   Ledger.Models          src/empiricist/ledger/models.py: statuses, verdicts, rows
--   Ledger.Tables          ledger/schema.py, and Ledger._tx of ledger/db.py
--   Ledger.Objective       dominates of ledger/models.py, and Python's comparisons of floats and lists
--   Ledger.Artifacts       ledger/db.py: add_artifact, get_artifact, relabel_artifact, find_artifacts
--   Ledger.Evidence        ledger/db.py: record_evidence, evidence_for
--   Ledger.Claimed         ledger/db.py: record_claimed_artifact, claims_for; Claim.create of models.py
--   Ledger.Certifications  ledger/db.py: the certification stamps, and the edges
--   Ledger.Runs            ledger/db.py: start_run, finish_run, reconcile_orphans, spent, run_aggregates
--   Ledger.Gates           ledger/gates.py: open, list, has_pending, resolve (open_gate, list_gates here)
--   Ledger.Frontier        ledger/frontier.py: Frontier.consider, version, recompute_frontier
--   Search.Population      src/empiricist/search/database.py: Population
--   Search.Stall           search/stall.py: StallDetector
--   Campaign.Scheduler     src/empiricist/campaign/scheduler.py: Scheduler
--   Campaign.State         campaign/state.py: CampaignState.load
--   Claims.Model           src/empiricist/claims/model.py: claim files, level_cap
--   Claims.Graph           claims/standing.py: find_cycle, topological_order
--   Claims.Standing        claims/standing.py: receipts, dependency_graph, compute_standing
--   Fusion.Graphs          src/empiricist/domain/p5/graphstate.py: GraphState (graph_state here), neighbors
--   Fusion.Local           domain/p5/localcomp.py: local_complement
--   Fusion.Orbit           domain/p5/localcomp.py: lc_orbit
--   Fusion.Construction    domain/p5/construction.py: constructions and their replay on an engine
--   Fusion.Moves           domain/p5/moves.py: merge_fresh_ghz3, local_complements
--   Verifiers.Engines      src/empiricist/verifiers/base.py, stab_fusion.py, enum_fusion.py
--   Verifiers.Registry     verifiers/registry.py: Registry, certify_with_suite
--   Verifiers.Agreed       verifiers/registry.py: verify_agreed, certify_agreed, agreed_is_certified
--   Store                  src/empiricist/store.py and ledger/ingest.py
--   Llm.Throttle           src/empiricist/llm/throttle.py, and the attempts of a round in search/p3_loop.py
--   Zx.Diagrams            src/empiricist/packs/zx/diagram.py and rules.py: the data
--   Zx.Termination         packs/zx/termination.py: the check of termination certificates
--   System                 sessions: every operation that changes the database, as one request
--   Base                   what the modules share: tests, lists, rows under a key, relations on lists, sets, traversals
--   Tests                  the theorems at concrete inputs
--
-- The children of a module hold its proofs and are named for what they prove.
--
-- State. The database is a record of its tables, each a list of rows in the order of their
-- insertion, and the flag `in_transaction` of the connection. A method is an `Action`: it maps the
-- database to a result or an error and the new database. A transaction runs its body, commits on
-- success and goes back to the database at its beginning on an error; a transaction within one
-- raises, as SQLite does. A primary key, a foreign key and a CHECK that a statement may violate is
-- a test that raises IntegrityError. INSERT OR REPLACE removes the row of the key and adds the new
-- one at the end. The scheduler and the detector are records that their operations map to new
-- ones.
--
-- Values. A text is a number: the program compares, orders and stores texts, and the order of the
-- numbers is that of the texts. JSON columns hold the text that was encoded. A cost is a number of
-- a smallest unit and wall time a number, so sums of floats are taken to be exact. A component of
-- an objective vector is a finite double, by its place among the finite doubles, an infinity or
-- NaN, with Python's comparisons; the diversity floor of the detector is a fraction. A rank is one
-- higher than in the source, where REFUTED has rank -1. A move that is misspelt is `none`.
--
-- Parameters. `RelabelEnv`, `ClaimEnv` and `LoadEnv` stand for str.strip, the JSON encoder, the
-- digest and fixed texts; `Inputs` for the lock's mismatches and the registry's test; ids and time
-- stamps that the code draws afresh are arguments. Nothing is assumed of them. `Engine` stands for
-- the two engines of fusion and the key of an orbit for its canonical form; `IsCounting` says what
-- their documentation does of the number of their qubits. The golden suite and its hash, the hash
-- of contents and the form of a digest, and the client of a language model are parameters too; the
-- store's theorems assume that a hash has the form of a digest.
--
-- Fuel. The loops of the ledger, the scheduler and the registry run over the lists that they read.
-- The recursive visits of find_cycle and topological_order have one more unit of fuel than there
-- are claims, the queue of lc_orbit two more than the cap, and the attempts of a round as many as
-- the policy has; running out is an outcome of its own, which the theorems exclude. Two limits of
-- Python are left out: that of its recursion, which the visits meet on a chain of about a
-- thousand claims, and the OverflowError of a float, which a delay meets after about a thousand
-- attempts.
--
-- Not modelled: opening and migrating the database file, concurrent connections, the logging, the
-- tables' text encoding, failed writes of the store, the views of a graph state for other
-- libraries, the two engines themselves, and the parts of the repository outside the files named
-- above (the other domains and packs, the matching and the replay of ZX rewrites, of which
-- Zx.Termination.Uses describes what a step comes to, the rest of the claims tooling
-- and of the campaign, the clients of language models, the executor, the verifiers around external
-- programs, formalization, the command line).
pub mod Base
pub mod Ledger
pub mod Store
pub mod Llm
pub mod Zx
pub mod Fusion
pub mod Verifiers
pub mod Search
pub mod System
pub mod Campaign
pub mod Claims
pub mod Tests
