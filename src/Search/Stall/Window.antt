-- ===== src/Search/Stall/Window.antt =====
-- The stall detector after a run of generations: it holds the last `window` of them, and assesses
-- those.
use empiricist.Base.{
  ℕ, ◌+◌, ◌-◌, ◌≤◌, ◌≡◌, refl, subst, sym, ap, ◌∙◌, zero, suc, inl, inr, false, some, List, [], ◌∷◌,
  ◌++◌, length, length-append, ltb, arith, if◌then◌else◌, Bool-cases,
}
use mathlib.Core.List.{append-nil, append_assoc}
use empiricist.Search.Stall.{
  Report, Detector, Assessment, healthy, island_reset, hard_restart, start, push, feed, total,
  reaches_floor, assess,
}

-- The list without its first elements.
abbrev pub drop : ℕ → List Report → List Report
drop zero rs = rs
drop (suc n) [] = []
drop (suc n) (r ∷ rs) = drop n rs

-- The last `window` reports.
abbrev pub last_of : ℕ → List Report → List Report
last_of window rs = drop (length rs - window) rs

pub feed_all : Detector → List Report → Detector
feed_all s [] = s
feed_all s (r ∷ rs) = feed_all (feed s r) rs

drop-append : (n : ℕ) (xs ys : List Report) → n ≤ length xs → drop n (xs ++ ys) ≡ drop n xs ++ ys
drop-append zero xs ys h = refl
drop-append (suc n) [] ys h = absurd (omega arith)
drop-append (suc n) (x ∷ xs) ys h = drop-append n xs ys (omega arith)

drop-drop : (n : ℕ) (xs : List Report) → drop 1 (drop n xs) ≡ drop (suc n) xs
drop-drop zero xs = refl
drop-drop (suc n) [] = refl
drop-drop (suc n) (x ∷ xs) = drop-drop n xs

length-drop : (n : ℕ) (xs : List Report) → length (drop n xs) ≡ length xs - n
length-drop zero xs = omega arith
length-drop (suc n) [] = omega arith
length-drop (suc n) (x ∷ xs) = omega (arith, length-drop n xs)

push-eq :
    (window : ℕ) (xs : List Report) (r : Report)
    → 1 ≤ window
    → push window xs r ≡ (if ltb (length xs) window then xs ++ r ∷ [] else drop 1 (xs ++ r ∷ []))
unfolding push
push-eq window [] r h = ground arith
push-eq window (x ∷ xs) r h = refl

push-last_of :
    (window : ℕ) (xs : List Report) (r : Report)
    → 1 ≤ window
    → push window (last_of window xs) r ≡ last_of window (xs ++ r ∷ [])
push-last_of window xs r h =
    let k = length xs - window in
    let size = length-append xs (r ∷ []) in
    push-eq window (last_of window xs) r h ∙ elim (Bool-cases (ltb (length xs) window)) [
      | inl short ↦
          let none_dropped : k ≡ 0 = ground arith in
          let none_dropped' : length (xs ++ r ∷ []) - window ≡ 0 = ground (arith, size) in
          ground (arith, none_dropped, none_dropped', short)
      | inr full ↦
          let one_more : length (xs ++ r ∷ []) - window ≡ suc k = ground (arith, size) in
          let is_full : ltb (length (drop k xs)) window ≡ false =
            ground (arith, length-drop k xs) in
          rw is_full (
            ap (drop 1) (sym (drop-append k xs (r ∷ []) (ground arith)))
            ∙ drop-drop k (xs ++ r ∷ [])
            ∙ ap (λ n. drop n (xs ++ r ∷ [])) (sym one_more))
    ]

feed_all-reports_from :
    (s : Detector) (xs rs : List Report)
    → 1 ≤ s.window
    → s.reports ≡ last_of s.window xs
    → feed_all s rs ≡ record s { reports = last_of s.window (xs ++ rs) }
unfolding feed_all feed
feed_all-reports_from s xs [] h e = ground (arith, e, append-nil xs)
feed_all-reports_from s xs (r ∷ rs) h e =
    feed_all-reports_from (feed s r) (xs ++ r ∷ []) rs h
      (ap (λ ys. push s.window ys r) e ∙ push-last_of s.window xs r h)
    ∙ ap (λ ys. record s { reports = last_of s.window ys }) (append_assoc xs (r ∷ []) rs)

start-eq :
    (window num den : ℕ) {s : Detector}
    → start window num den ≡ some s
    → (1 ≤ window)
      × (record { window = window; floor_num = num; floor_den = den; reports = [] } ≡ s)
unfolding start
start-eq window num den h = elim (Bool-cases (ltb window 1)) [
  | inl empty ↦ absurd (ground arith)
  | inr large ↦ (ground arith, ground arith)
]

-- The assessment of a whole history of generations by its last `window` ones.
abbrev pub verdict : Detector → List Report → Assessment
verdict s history =
    let recent = last_of s.window history in
    if ltb (length history) s.window
    then healthy
    else if ltb 0 (total (λ r. r.inserted) recent)
    then healthy
    else if reaches_floor s (total (λ r. r.inserted + r.duplicates) recent)
        (total (λ r. r.sampled) recent)
    then island_reset
    else hard_restart

length-last_of :
    (window : ℕ) (rs : List Report)
    → ltb (length (last_of window rs)) window ≡ ltb (length rs) window
length-last_of window rs = ground (arith, length-drop (length rs - window) rs)

assess-last_of :
    (s : Detector) (rs : List Report)
    → assess (record s { reports = last_of s.window rs }) ≡ verdict s rs
unfolding assess reaches_floor
assess-last_of s rs = rw (length-last_of s.window rs) refl

last_of-nil : (window : ℕ) → last_of window [] ≡ []
last_of-nil window = let nothing : 0 - window ≡ 0 = omega arith in ap (λ n. drop n []) nothing

-- A detector that was constructed and then fed with any reports holds the last `window` of them, and
-- assesses these alone: healthy before `window` generations and when one of the last `window` inserted
-- something; otherwise an island reset where the verified fraction of the samples of the last `window`
-- generations reaches the floor, and a hard restart where it does not.
pub assess_window :
    (window num den : ℕ) (s : Detector) (rs : List Report)
    → start window num den ≡ some s
    → ((feed_all s rs).reports ≡ last_of window rs) × (assess (feed_all s rs) ≡ verdict s rs)
assess_window window num den s rs h =
    let (large, made) = start-eq window num den h in
    let begun : Detector = record {
      window = window;
      floor_num = num;
      floor_den = den;
      reports = [];
    } in
    let e = feed_all-reports_from begun [] rs large (sym (last_of-nil window)) in
    subst
      (λ s. ((feed_all s rs).reports ≡ last_of window rs) × (assess (feed_all s rs) ≡ verdict s rs))
      made (ap (λ t. t.reports) e, ap assess e ∙ assess-last_of begun rs)
