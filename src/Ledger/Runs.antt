-- ===== src/Ledger/Runs.antt =====
-- The runs of src/empiricist/ledger/db.py: `start_run`, `finish_run`, `get_run`,
-- `reconcile_orphans`, `spent` and `run_aggregates`.
pub mod Closing
use empiricist.Base.{
  ℕ, ◌+◌, Bool, true, false, not, ◌&&◌, Option, none, some, List, [], ◌∷◌, find, keep, update,
  count, is_some, opt_eq, coalesce, leb, ◌==◌, if◌then◌else◌, length, map,
}
use empiricist.Ledger.Models.{Text, Run, ExitCode}
use empiricist.Ledger.Tables.{
  Db, key_error, run_already_finished, Action, pure, raise, select, some_or_raise, ◌>>=◌, ◌>>◌,
  when, write, transaction,
}
use empiricist.Ledger.Artifacts.{insert_run}

abbrev pub orphaned_exit_code : ExitCode
orphaned_exit_code = ExitCode.minus 999

abbrev pub unknown_billing_exit_code : ExitCode
unknown_billing_exit_code = ExitCode.minus 996

-- What the caller of `finish_run` reports.
pub record Outcome : Type 0 where
  pub exit_code : ExitCode
  pub wall_s : ℕ
  pub peak_rss_mb : Option ℕ
  pub tokens_in : ℕ
  pub tokens_out : ℕ
  pub cache_read : ℕ
  pub cost_usd : ℕ
  pub response_digest : Option Text

abbrev pub find_run : Text → Db → Option Run
find_run id d = find (λ r. r.run_id == id) d.runs

-- `ended IS NULL`
abbrev pub is_open : Run → Bool
is_open r = not (is_some r.ended)

unfoldable pub start_run : Run → Action (Unit {0})
unfolding insert_run
start_run run = transaction (insert_run run)

pub finished : Outcome → Text → Run → Run
finished o now r = record r {
  exit_code = some o.exit_code;
  wall_s = some o.wall_s;
  peak_rss_mb = o.peak_rss_mb;
  tokens_in = o.tokens_in;
  tokens_out = o.tokens_out;
  cache_read = o.cache_read;
  cost_usd = o.cost_usd;
  response_digest = coalesce o.response_digest r.response_digest;
  ended = some now;
}

-- `rowcount == 0` after the UPDATE: no open run had the id.
explain_missing : Text → ℕ → Action (Unit {0})
explain_missing id rows =
    when (rows == 0) do some_or_raise (← select (find_run id)) key_error; raise run_already_finished

unfoldable pub finish_run : Text → Outcome → Text → Action (Unit {0})
unfolding explain_missing finished
finish_run id o now = transaction do
  rows ← select (λ d. count (λ r. r.run_id == id && is_open r) d.runs)
  write (λ d. record d { runs = update (λ r. r.run_id == id && is_open r) (finished o now) d.runs })
  explain_missing id rows

unfoldable get_run : Text → Action Run
get_run id = do some_or_raise (← select (find_run id)) key_error

pub orphaned : Text → Run → Run
orphaned now r = record r {
  exit_code = some (if is_some r.provider then unknown_billing_exit_code else orphaned_exit_code);
  ended = some now;
}

unfoldable pub reconcile_orphans : Text → Action ℕ
unfolding orphaned
reconcile_orphans now = transaction do
  rows ← select (λ d. count is_open d.runs)
  write (λ d. record d { runs = update is_open (orphaned now) d.runs })
  pure rows

pub record Spent : Type 0 where
  pub cost_usd : ℕ
  pub tokens_in : ℕ
  pub tokens_out : ℕ

-- SUM over rows, 0 over none.
abbrev pub sum_of {ℓ} : {A : Type ℓ} → (A → ℕ) → List A → ℕ
sum_of f [] = 0
sum_of f (x ∷ xs) = f x + sum_of f xs

pub spent : Action Spent
spent = select λ d. record {
  cost_usd = sum_of (λ r. r.cost_usd) d.runs;
  tokens_in = sum_of (λ r. r.tokens_in) d.runs;
  tokens_out = sum_of (λ r. r.tokens_out) d.runs;
}

pub record RoleAggregate : Type 0 where
  pub role : Option Text
  pub cost_usd : ℕ
  pub tokens_in : ℕ
  pub tokens_out : ℕ
  pub run_count : ℕ

-- The roles of the runs, each once and in order; NULL sorts first.
abbrev role_le : Option Text → Option Text → Bool
role_le none b = true
role_le (some a) none = false
role_le (some a) (some b) = leb a b

unfoldable insert_role : Option Text → List (Option Text) → List (Option Text)
insert_role x [] = x ∷ []
insert_role x (y ∷ ys) =
    if opt_eq x y then y ∷ ys else if role_le x y then x ∷ y ∷ ys else y ∷ insert_role x ys

unfoldable roles : List Run → List (Option Text)
unfolding insert_role
roles [] = []
roles (r ∷ rs) = insert_role r.role (roles rs)

unfoldable aggregate : List Run → Option Text → RoleAggregate
aggregate runs role =
    let rows = keep (λ r. opt_eq r.role role) runs in
    record {
      role = role;
      cost_usd = sum_of (λ r. r.cost_usd) rows;
      tokens_in = sum_of (λ r. r.tokens_in) rows;
      tokens_out = sum_of (λ r. r.tokens_out) rows;
      run_count = length rows;
    }

-- GROUP BY role ORDER BY role
unfoldable run_aggregates : Action (List RoleAggregate)
unfolding roles aggregate
run_aggregates = select λ d. map (aggregate d.runs) (roles d.runs)
