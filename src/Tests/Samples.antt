-- ===== src/Tests/Samples.antt =====
-- The rows that the witnesses share.
use empiricist.Base.{◌+◌, false, Option, none, some, List, [], ◌∷◌}
use empiricist.Ledger.Models.{
  Text, Status, Verdict, Artifact, EvidenceRow, Claim, Run, Certification,
}
use empiricist.Ledger.Tables.{Db, Number, FrontierRow}
use empiricist.Ledger.Claimed.{ClaimEnv}

abbrev pub artifact : Text → Status → Artifact
artifact id status = record {
  id = id;
  kind = 1;
  problem = 2;
  title = 3;
  content_path = 4;
  status = status;
  substatus = none;
  status_n = none;
  coverage = none;
  created_at = 10;
  run_id = none;
  problem_version = 1;
}

abbrev pub evidence : Text → Verdict → EvidenceRow
evidence id verdict = record {
  artifact_id = id;
  verifier = 20;
  verifier_version = 1;
  binary_hash = 30;
  verdict = verdict;
  details = 0;
  log_path = none;
  wall_s = none;
  created_at = 11;
  claim_id = none;
  run_id = none;
  golden_suite_hash = none;
}

abbrev pub stamp : Certification
stamp = record {
  verifier = 20;
  verifier_version = 1;
  binary_hash = 30;
  golden_suite_hash = 40;
  verdict = Verdict.pass;
  stamped_at = 9;
  run_id = none;
}

abbrev pub db : Db
db = record {
  artifacts = artifact 7 Status.heuristic ∷ [];
  evidence = [];
  claims = [];
  certifications = stamp ∷ [];
  certification_attempts = stamp ∷ [];
  edges = [];
  runs = [];
  gates = [];
  population = [];
  evicted = [];
  search_events = [];
  pareto_frontier = [];
  in_transaction = false;
}

-- An encoder that answers with the statement, and a digest that adds one to it.
abbrev pub encoder : ClaimEnv
encoder = record {
  identity_json = λ i. some i.statement;
  scope_json = λ scope. some scope;
  blake3 = λ text. text + 1;
  legacy = 99;
}

abbrev pub certified : Artifact
certified = artifact 7 Status.certified

abbrev pub claim : Claim
claim = record {
  id = 51;
  artifact_id = 7;
  problem = 2;
  problem_version = 1;
  statement = 50;
  family = none;
  metric = none;
  scope = 60;
  created_at = 11;
}

abbrev pub claim_pass : EvidenceRow
claim_pass = record (evidence 7 Verdict.pass) { claim_id = some 51; golden_suite_hash = some 40 }

abbrev pub open_run : Text → Option Text → Run
open_run id provider = record {
  run_id = id;
  move = 70;
  role = none;
  model = none;
  argv = none;
  seed = none;
  config_hash = none;
  env_fingerprint = none;
  tokens_in = 0;
  tokens_out = 0;
  cache_read = 0;
  cost_usd = 0;
  peak_rss_mb = none;
  exit_code = none;
  started = 12;
  ended = none;
  wall_s = none;
  provider = provider;
  reasoning_mode = none;
  reasoning_effort = none;
  auth_route = none;
  request_digest = none;
  response_digest = none;
}

abbrev pub point : Text → List Number → FrontierRow
point key vec = record { lc_orbit_key = key; objective_vec = vec; frontier_version = 1 }
