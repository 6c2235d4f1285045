-- ===== src/System/Frames.antt =====
-- The operations that leave the artifacts and the evidence alone.
use empiricist.Base.{◌≡◌, Bool, Option, arith}
use empiricist.Ledger.Models.{Text, Run, GateKind, Certification}
use empiricist.Ledger.Tables.{Db, Vector, Edge, SearchEvent}
use empiricist.Ledger.Certifications
use empiricist.Ledger.Runs
use empiricist.Ledger.Runs.{Outcome}
use empiricist.Ledger.Gates
use empiricist.Ledger.Frontier
use empiricist.Search.Population
use empiricist.Search.Population.{Candidate}

abbrev pub Same : Db → Db → Type 0
Same d d' = (d'.artifacts ≡ d.artifacts) × (d'.evidence ≡ d.evidence)

pub add_certification-Same :
    (c : Certification) (d : Db) → Same d (Certifications.add_certification c d).1
unfolding Certifications.add_certification
add_certification-Same c d = ground arith

pub add_edge-Same : (e : Edge) (d : Db) → Same d (Certifications.add_edge e d).1
unfolding Certifications.add_edge
add_edge-Same e d = ground arith

pub start_run-Same : (r : Run) (d : Db) → Same d (Runs.start_run r d).1
unfolding Runs.start_run
start_run-Same r d = ground arith

pub finish_run-Same :
    (id : Text) (o : Outcome) (now : Text) (d : Db) → Same d (Runs.finish_run id o now d).1
unfolding Runs.finish_run
finish_run-Same id o now d = ground arith

pub reconcile_orphans-Same : (now : Text) (d : Db) → Same d (Runs.reconcile_orphans now d).1
unfolding Runs.reconcile_orphans
reconcile_orphans-Same now d = ground arith

pub open_gate-Same :
    (kind : GateKind) (artifact_id : Text) (note : Option Text) (id now : Text) (d : Db)
    → Same d (Gates.open_gate kind artifact_id note id now d).1
unfolding Gates.open_gate
open_gate-Same kind artifact_id remark id now d = ground arith

settle-Same :
    (id : Text) (approve : Bool) (note : Option Text) (now : Text) (d : Db)
    → Same d (Gates.settle id approve note now d).1
unfolding Gates.settle
settle-Same id approve remark now d = ground arith

pub resolve-Same :
    (id : Text) (approve : Bool) (note : Option Text) (now : Text) (d : Db)
    → Same d (Gates.resolve id approve note now d).1
unfolding Gates.resolve
resolve-Same id approve remark now d = ground (arith, settle-Same id approve remark now d)

pub consider_frontier-Same :
    (key : Text) (vec : Vector) (d : Db) → Same d (Frontier.consider key vec d).1
unfolding Frontier.consider
consider_frontier-Same key vec d = ground arith

pub consider_population-Same :
    (improved now : Text) (c : Candidate) (d : Db) → Same d (Population.consider improved now c d).1
unfolding Population.consider
consider_population-Same improved now c d = ground arith

pub log_event-Same : (e : SearchEvent) (d : Db) → Same d (Population.log_event e d).1
unfolding Population.log_event
log_event-Same e d = ground arith
