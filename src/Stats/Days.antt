-- ===== src/Stats/Days.antt =====
-- The days of the charts: which there are, and that no row is lost.
use gracon_admin_service.Prelude.{
  ℕ, zero, suc, ◌+◌, ◌-◌, ◌*◌, ◌/◌, ◌≤◌, ◌<◌, true, false, Option, none, some, List, [], ◌∷◌, ◌≡◌,
  refl, ap, subst, ◌∙◌, leb, eqb, if◌then◌else◌, or_else, length, Bool-cases, inl, inr, arith,
}
use native.Mathlib.Nat.{div-le_self, mul-div_left, one-mul, add-mul-div_right, le-div_iff_mul-le}
use gracon_admin_service.Certificates.Listing.{ms_per_day}
use gracon_admin_service.Stats.{
  LocalClock, DailyCount, day_of, labels_from, generate_date_labels, count_on, chart,
}

-- `n` days from this one on.
abbrev pub days_from : ℕ → ℕ → List ℕ
days_from zero day = []
days_from (suc n) day = day ∷ days_from n (suc day)

reached : (day to : ℕ) → day ≤ day_of to → leb (day * ms_per_day) to ≡ true
reached day to h =
    let under : day * ms_per_day ≤ to =
      (le-div_iff_mul-le {k = ms_per_day} {x = day} {y = to} (omega arith)).0 h in
    ground (arith, under)

passed : (day to : ℕ) → day_of to < day → leb (day * ms_per_day) to ≡ false
passed day to h = elim (Bool-cases (leb (day * ms_per_day) to)) [
  | inl more ↦
      let under : day * ms_per_day ≤ to = ground (arith, more) in
      let back : day ≤ day_of to =
        (le-div_iff_mul-le {k = ms_per_day} {x = day} {y = to} (omega arith)).1 under in
      absurd (omega (arith, back, h))
  | inr done ↦ done
]

-- The server runs in UTC.
abbrev pub utc : LocalClock
utc = record {
  start_of_day = λ at. day_of at * ms_per_day;
  next_day = λ at. at + ms_per_day;
  next_day_later = λ at. omega arith;
}

-- The labels are the dates of the instants from `current` on, each a local day after the last, up to
-- the last one that is not after `to`.
pub data Rounds (L : LocalClock) (to : ℕ) : ℕ → List ℕ → Type 0 where
  ended : {current : ℕ} → to < current → Rounds L to current []
  round :
      {current : ℕ} {labels : List ℕ}
      → current ≤ to
      → Rounds L to (L.next_day current) labels
      → Rounds L to current (day_of current ∷ labels)

labels_from-Rounds :
    (L : LocalClock) (fuel current to : ℕ)
    → to < current + fuel
    → Rounds L to current (labels_from L fuel current to)
unfolding labels_from
labels_from-Rounds L zero current to enough = ended (omega (arith, enough))
labels_from-Rounds L (suc fuel) current to enough =
    let later = L.next_day_later current in
    let rest = labels_from-Rounds L fuel (L.next_day current) to (omega (arith, enough, later)) in
    elim (Bool-cases (leb current to)) [
      | inl more ↦ rw more (round (ground (arith, more)) rest)
      | inr over ↦ rw over (ended (ground (arith, over)))
    ]

labels_from-days :
    (fuel n day to : ℕ)
    → n ≤ fuel
    → n ≡ suc (day_of to) - day
    → labels_from utc fuel (day * ms_per_day) to ≡ days_from n day
unfolding labels_from
labels_from-days zero zero day to enough e = refl
labels_from-days zero (suc n) day to enough e = absurd (omega (arith, enough))
labels_from-days (suc fuel) zero day to enough e = rw (passed day to (omega (arith, e))) refl
labels_from-days (suc fuel) (suc n) day to enough e =
    let more : day ≤ day_of to = omega (arith, e) in
    let this_day : day_of (day * ms_per_day) ≡ day = mul-div_left day (omega arith) in
    let following : day * ms_per_day + ms_per_day ≡ suc day * ms_per_day = omega arith in
    rw (reached day to more, this_day, following)
      (ap (λ r. day ∷ r)
        (labels_from-days fuel n (suc day) to (omega (arith, enough)) (omega (arith, e))))

length-days_from : (n day : ℕ) → length (days_from n day) ≡ n
length-days_from zero day = refl
length-days_from (suc n) day = omega (arith, length-days_from n (suc day))

pub generate_date_labels_lem :
    (from to : ℕ)
    → generate_date_labels utc from to ≡ days_from (suc (day_of to) - day_of from) (day_of from)
unfolding generate_date_labels
generate_date_labels_lem from to =
    labels_from-days (suc to) (suc (day_of to) - day_of from) (day_of from) to
      (let small = div-le_self to ms_per_day in omega (arith, small)) refl

week_before : (to : ℕ) → 7 * ms_per_day ≤ to → suc (day_of to) - day_of (to - 7 * ms_per_day) ≡ 8
week_before to h =
    let split : to ≡ to - 7 * ms_per_day + 7 * ms_per_day = omega (arith, h) in
    let shifted : (to - 7 * ms_per_day + 7 * ms_per_day) / ms_per_day
        ≡ day_of (to - 7 * ms_per_day) + 7 =
      add-mul-div_right (to - 7 * ms_per_day) 7 (omega arith) in
    let week : day_of to ≡ day_of (to - 7 * ms_per_day) + 7 = ap day_of split ∙ shifted in
    omega (arith, week)

-- The loop ends, in every time zone: the labels are the UTC dates of the local midnights from that of
-- `from` on, each a local day after the last, as long as they are not after `to`. On a server in UTC
-- these are every day from the first to the last, both included, once and in order; for the last
-- seven days from some instant on, eight days.
pub generate_date_labels-days :
    (L : LocalClock) (from to : ℕ)
    → Rounds L to (L.start_of_day from) (generate_date_labels L from to)
      × (generate_date_labels utc from to ≡ days_from (suc (day_of to) - day_of from) (day_of from))
      × (7 * ms_per_day ≤ to → length (generate_date_labels utc (to - 7 * ms_per_day) to) ≡ 8)
unfolding generate_date_labels
generate_date_labels-days L from to = (
  labels_from-Rounds L (suc to) (L.start_of_day from) to (omega arith),
  generate_date_labels_lem from to,
  λ h.
      ap length (generate_date_labels_lem (to - 7 * ms_per_day) to)
      ∙ length-days_from (suc (day_of to) - day_of (to - 7 * ms_per_day))
          (day_of (to - 7 * ms_per_day))
      ∙ week_before to h,
)

abbrev pub occurrences : ℕ → List ℕ → ℕ
occurrences d [] = 0
occurrences d (day ∷ days) = let n = occurrences d days in if eqb d day then suc n else n

-- The rows of a query that groups by day: no day twice, and each day one of these.
abbrev pub Grouped : List (ℕ × ℕ) → List ℕ → Type 0
Grouped [] labels = Unit
Grouped ((d, n) ∷ rows) labels =
    (count_on rows d ≡ none) × (occurrences d labels ≡ 1) × Grouped rows labels

abbrev pub rows_total : List (ℕ × ℕ) → ℕ
rows_total [] = 0
rows_total ((d, n) ∷ rows) = n + rows_total rows

abbrev pub chart_total : List DailyCount → ℕ
chart_total [] = 0
chart_total (c ∷ cs) = c.count + chart_total cs

chart_empty : (labels : List ℕ) → chart_total (chart labels []) ≡ 0
unfolding chart count_on
chart_empty [] = refl
chart_empty (day ∷ labels) = omega (arith, chart_empty labels)

count_other :
    (d n day : ℕ) (o : Option ℕ)
    → eqb d day ≡ false
    → or_else (elim o [ some m ↦ some m | none ↦ (if eqb d day then some n else none) ]) 0
      ≡ (if eqb d day then n else 0) + or_else o 0
count_other d n day none apart = rw apart refl
count_other d n day (some m) apart = rw apart (omega arith)

count_more :
    (d n day : ℕ) (rows : List (ℕ × ℕ))
    → count_on rows d ≡ none
    → or_else (count_on ((d, n) ∷ rows) day) 0
      ≡ (if eqb d day then n else 0) + or_else (count_on rows day) 0
unfolding count_on
count_more d n day rows fresh = elim (Bool-cases (eqb d day)) [
  | inl same ↦
      let here : d ≡ day = ground (arith, same) in
      let gone : count_on rows day ≡ none = subst (λ x. count_on rows x ≡ none) here fresh in
      rw (gone, same) (omega arith)
  | inr apart ↦ count_other d n day (count_on rows day) apart
]

chart_more :
    (d n : ℕ) (rows : List (ℕ × ℕ)) (labels : List ℕ)
    → count_on rows d ≡ none
    → chart_total (chart labels ((d, n) ∷ rows))
      ≡ occurrences d labels * n + chart_total (chart labels rows)
unfolding chart
chart_more d n rows [] fresh = omega arith
chart_more d n rows (day ∷ labels) fresh =
    let first = count_more d n day rows fresh in
    let rest = chart_more d n rows labels fresh in
    elim (Bool-cases (eqb d day)) [
      | inl same ↦
          let here : or_else (count_on ((d, n) ∷ rows) day) 0 ≡ n + or_else (count_on rows day) 0 =
            (rw same at first) in
          rw (same, here) (omega (arith, rest))
      | inr apart ↦
          let here : or_else (count_on ((d, n) ∷ rows) day) 0 ≡ 0 + or_else (count_on rows day) 0 =
            (rw apart at first) in
          rw (apart, here) (omega (arith, rest))
    ]

-- If no two rows are of one day, and each is of a day that the chart has once, the chart counts
-- what the rows count: nothing is lost and nothing is counted twice.
pub chart-total :
    (labels : List ℕ) (rows : List (ℕ × ℕ))
    → Grouped rows labels
    → chart_total (chart labels rows) ≡ rows_total rows
chart-total labels [] g = chart_empty labels
chart-total labels ((d, n) ∷ rows) g =
    let more = chart_more d n rows labels g.0 in
    let rest = chart-total labels rows g.2 in
    let once : occurrences d labels * n ≡ n = (rw g.1 (one-mul n)) in
    omega (arith, more, rest, once)
