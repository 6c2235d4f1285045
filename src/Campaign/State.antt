-- ===== src/Campaign/State.antt =====
-- `CampaignState.load` of src/empiricist/campaign/state.py, as far as it works on the ledger: the
-- orphans are closed and the session's boundary is marked.
use empiricist.Base.{
  ℕ, ◌≡◌, refl, Bool, true, false, not, ◌||◌, none, some, List, [], ◌∷◌, ◌++◌, count, arith,
  if◌then◌else◌,
}
use empiricist.Ledger.Models.{Text, Artifact}
use empiricist.Ledger.Tables.{Db, SearchEvent, ok, Action, select, ◌>>=◌}
use empiricist.Ledger.Runs.{is_open, reconcile_orphans, orphaned}
use empiricist.Ledger.Runs.Closing.{update_none, reconcile_orphans-eq, reconcile_orphans_closes}
use empiricist.Search.Population.{log_event}

-- The two triggers, the JSON of the number of orphans, and the time.
pub record LoadEnv : Type 0 where
  pub created : Text
  pub resume : Text
  pub orphans_json : ℕ → Text
  pub now : Text

abbrev is_empty : {A : Type 0} → List A → Bool
is_empty [] = true
is_empty (_ ∷ _) = false

abbrev pub existed : Db → Bool
existed d = not (is_empty d.search_events) || not (is_empty d.artifacts)

-- The marker; its generation is -1.
abbrev pub marker : LoadEnv → Bool → ℕ → SearchEvent
marker env resumed orphans = record {
  gen = none;
  trigger = if resumed then env.resume else env.created;
  detail = some (env.orphans_json orphans);
  ts = env.now;
}

pub load : LoadEnv → Action (Unit {0})
load env = do
  resumed ← select existed
  orphans ← reconcile_orphans env.now
  log_event (marker env resumed orphans)

load-eq :
    (env : LoadEnv) (d : Db)
    → d.in_transaction ≡ false
    → load env d ≡ (
      ok tt,
      record (reconcile_orphans env.now d).1 {
        search_events = d.search_events ++ marker env (existed d) (count is_open d.runs) ∷ [];
      },
    )
unfolding load log_event
load-eq env d idle = ground (arith, reconcile_orphans-eq env.now d idle)

append_existed : (events : List SearchEvent) (e : SearchEvent) → is_empty (events ++ e ∷ []) ≡ false
append_existed [] e = refl
append_existed (x ∷ xs) e = refl

load_again :
    (env : LoadEnv) (d : Db)
    → d.in_transaction ≡ false
    → count is_open d.runs ≡ 0
    → existed d ≡ true
    → load env d ≡ (ok tt, record d { search_events = d.search_events ++ marker env true 0 ∷ [] })
load_again env d idle none_open known = ground (
  arith,
  load-eq env d idle,
  reconcile_orphans-eq env.now d idle,
  none_open,
  known,
  update_none is_open (orphaned env.now) d.runs none_open,
)

-- The trigger by what the ledger holds: nothing at all in the first session.
abbrev pub session_trigger : LoadEnv → List SearchEvent → List Artifact → Text
session_trigger env [] [] = env.created
session_trigger env [] (a ∷ artifacts) = env.resume
session_trigger env (e ∷ events) artifacts = env.resume

-- The boundary of a session with a trigger and a number of orphans.
abbrev pub boundary : LoadEnv → Text → ℕ → SearchEvent
boundary env trigger orphans = record {
  gen = none;
  trigger = trigger;
  detail = some (env.orphans_json orphans);
  ts = env.now;
}

marker-boundary :
    (env : LoadEnv) (d : Db) (orphans : ℕ)
    → marker env (existed d) orphans
      ≡ boundary env (session_trigger env d.search_events d.artifacts) orphans
marker-boundary env d orphans = by_tables d.search_events d.artifacts
  where
    by_tables :
        (events : List SearchEvent) (artifacts : List Artifact)
        → marker env (not (is_empty events) || not (is_empty artifacts)) orphans
          ≡ boundary env (session_trigger env events artifacts) orphans
    by_tables [] [] = refl
    by_tables [] (a ∷ artifacts) = refl
    by_tables (e ∷ events) artifacts = refl

-- Outside a transaction `load` succeeds and logs one event, of generation -1 and at the given time:
-- "created" where the ledger held neither a search event nor an artifact, else "resume", with the
-- number of runs that were open. Loading again succeeds, logs "resume" with no orphan, and changes
-- nothing else.
pub load_twice :
    (env env' : LoadEnv) (d : Db)
    → d.in_transaction ≡ false
    → let after = (load env d).1 in
      ((load env d).0 ≡ ok tt)
      × (after.search_events
          ≡ d.search_events
            ++ boundary env (session_trigger env d.search_events d.artifacts) (count is_open d.runs)
              ∷ [])
      × (load env' after ≡ (
        ok tt,
        record after { search_events = after.search_events ++ boundary env' env'.resume 0 ∷ [] },
      ))
load_twice env env' d idle =
    let e = load-eq env d idle in
    let (_, none_open, _, _) = reconcile_orphans_closes env.now env'.now d idle in
    rw e (
      refl,
      rw (marker-boundary env d (count is_open d.runs)) refl,
      load_again env' _ (ground (arith, reconcile_orphans-eq env.now d idle)) none_open (
          ground (
            arith,
            append_existed d.search_events (marker env (existed d) (count is_open d.runs)),
          )),
    )
