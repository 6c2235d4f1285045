-- ===== src/Ledger/Models.antt =====
-- src/empiricist/ledger/models.py: statuses, verdicts and the rows of the ledger.
-- A text that the program only compares, sorts and stores (an id, a hash, a label, a time stamp,
-- a JSON document) is a number: equal texts are equal numbers, and their order is the order of
-- the numbers. A cost is a number of the smallest unit that a run is billed in.
use empiricist.Base.{ℕ, Bool, true, false, Option}

abbrev pub Text : Type 0
Text = ℕ

pub data Status : Type 0 where
  refuted heuristic conjectured verified_n certified formalized : Status

pub data Verdict : Type 0 where
  pass fail error timeout : Verdict

-- `Status.rank`, one up: `refuted` is -1 in the source.
unfoldable pub rank : Status → ℕ
rank Status.refuted = 0
rank Status.heuristic = 1
rank Status.conjectured = 2
rank Status.verified_n = 3
rank Status.certified = 4
rank Status.formalized = 5

pub data Coverage : Type 0 where
  exhaustive sampled : Coverage

pub record Artifact : Type 0 where
  pub id : Text
  pub kind : Text
  pub problem : Text
  pub title : Text
  pub content_path : Text
  pub status : Status
  pub substatus : Option Text
  pub status_n : Option ℕ
  pub coverage : Option Coverage
  pub created_at : Text
  pub run_id : Option Text
  pub problem_version : Text

pub record EvidenceRow : Type 0 where
  pub artifact_id : Text
  pub verifier : Text
  pub verifier_version : Text
  pub binary_hash : Text
  pub verdict : Verdict
  pub details : Text
  pub log_path : Option Text
  pub wall_s : Option ℕ
  pub created_at : Text
  pub claim_id : Option Text
  pub run_id : Option Text
  pub golden_suite_hash : Option Text

pub record Claim : Type 0 where
  pub id : Text
  pub artifact_id : Text
  pub problem : Text
  pub problem_version : Text
  pub statement : Text
  pub family : Option Text
  pub metric : Option Text
  pub scope : Text
  pub created_at : Text

-- The dict `identity` of `Claim.create`.
pub record Identity : Type 0 where
  pub artifact_id : Text
  pub family : Option Text
  pub metric : Option Text
  pub problem : Text
  pub problem_version : Text
  pub scope : Text
  pub statement : Text

-- A process's exit code; `minus n` is -n.
pub data ExitCode : Type 0 where
  code minus : ℕ → ExitCode

pub record Run : Type 0 where
  pub run_id : Text
  pub move : Text
  pub role : Option Text
  pub model : Option Text
  pub argv : Option Text
  pub seed : Option ℕ
  pub config_hash : Option Text
  pub env_fingerprint : Option Text
  pub tokens_in : ℕ
  pub tokens_out : ℕ
  pub cache_read : ℕ
  pub cost_usd : ℕ
  pub peak_rss_mb : Option ℕ
  pub exit_code : Option ExitCode
  pub started : Text
  pub ended : Option Text
  pub wall_s : Option ℕ
  pub provider : Option Text
  pub reasoning_mode : Option Text
  pub reasoning_effort : Option Text
  pub auth_route : Option Text
  pub request_digest : Option Text
  pub response_digest : Option Text

pub data GateState : Type 0 where
  pending approved rejected : GateState

-- `GATE_KINDS` of gates.py, and any other text.
pub data GateKind : Type 0 where
  reduce proof_campaign accept_draft release : GateKind
  unknown : Text → GateKind

pub record Gate : Type 0 where
  pub id : Text
  pub kind : GateKind
  pub artifact_id : Text
  pub state : GateState
  pub opened_at : Text
  pub resolved_at : Option Text
  pub note : Option Text

pub record Certification : Type 0 where
  pub verifier : Text
  pub verifier_version : Text
  pub binary_hash : Text
  pub golden_suite_hash : Text
  pub verdict : Verdict
  pub stamped_at : Text
  pub run_id : Option Text

-- The tests `is` between statuses and verdicts.
abbrev pub is_refuted : Status → Bool
is_refuted Status.refuted = true
is_refuted _ = false

abbrev pub is_pass : Verdict → Bool
is_pass Verdict.pass = true
is_pass _ = false

abbrev pub is_fail : Verdict → Bool
is_fail Verdict.fail = true
is_fail _ = false
