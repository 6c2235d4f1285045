-- ===== src/Search/Stall.antt =====
-- src/empiricist/search/stall.py: the stall detector over the last generations. The floor is the
-- fraction `floor_num / floor_den`.
pub mod Window
use empiricist.Base.{
  ℕ, ◌+◌, ◌*◌, Bool, Option, none, some, List, [], ◌∷◌, ◌++◌, length, ltb, leb, ◌==◌, if◌then◌else◌,
}

-- The counts of a `GenerationReport` that the detector reads.
pub record Report : Type 0 where
  pub sampled : ℕ
  pub inserted : ℕ
  pub duplicates : ℕ

pub data Assessment : Type 0 where
  healthy island_reset hard_restart : Assessment

pub record Detector : Type 0 where
  pub window : ℕ
  pub floor_num : ℕ
  pub floor_den : ℕ
  pub reports : List Report

-- `StallDetector.__init__`, which raises ValueError on an empty window.
unfoldable pub start : ℕ → ℕ → ℕ → Option Detector
start window num den =
    if ltb window 1
    then none
    else some (record { window = window; floor_num = num; floor_den = den; reports = [] })

-- `deque(maxlen=window).append`: the oldest report falls out of a full deque.
pub push : ℕ → List Report → Report → List Report
push window [] r = r ∷ []
push window (x ∷ xs) r = if ltb (length (x ∷ xs)) window then (x ∷ xs) ++ r ∷ [] else xs ++ r ∷ []

pub feed : Detector → Report → Detector
unfolding push
feed s r = record s { reports = push s.window s.reports r }

abbrev pub total : (Report → ℕ) → List Report → ℕ
total f [] = 0
total f (r ∷ rs) = f r + total f rs

-- `total_verified / total_sampled >= floor`, with 0.0 for the quotient when nothing was sampled.
pub reaches_floor : Detector → ℕ → ℕ → Bool
reaches_floor s verified sampled =
    if sampled == 0 then s.floor_num == 0 else leb (s.floor_num * sampled) (verified * s.floor_den)

pub assess : Detector → Assessment
unfolding reaches_floor
assess s =
    if ltb (length s.reports) s.window
    then healthy
    else if ltb 0 (total (λ r. r.inserted) s.reports)
    then healthy
    else if reaches_floor s (total (λ r. r.inserted + r.duplicates) s.reports)
        (total (λ r. r.sampled) s.reports)
    then island_reset
    else hard_restart
