-- ===== src/Listing/Activity.antt =====
-- The activity arrays of list_queues.rs.
use apalis_surrealdb.Prelude.{
  ℕ, zero, suc, ◌-◌, ◌<◌, ◌/◌, ◌≤◌, ◌≡◌, refl, ap, ◌∙◌, Option, none, some, List, [], ◌∷◌, length,
  All, arith, ◌==◌, Bool-cases, inl, inr,
}
use apalis_surrealdb.Prelude.Int.{as_usize}
use apalis_surrealdb.Listing.{
  ActivityRow, activity_slot, set, zeros, record_day, counted, daily_activity,
}

-- The index that an activity row writes to is inside the array, so the program does not panic, and it
-- counts the days back from today, which is the last one.
activity_slot_lem :
    (today day i : ℕ)
    → activity_slot today day ≡ some i
    → (i < 7) × (day / 86400 ≤ today) × (today - day / 86400 ≡ 6 - i)
unfolding activity_slot
activity_slot_lem today day i h = ground arith

length-set : (i v : ℕ) (xs : List ℕ) → length (set i v xs) ≡ length xs
length-set i v [] = refl
length-set zero v (x ∷ xs) = refl
length-set (suc i) v (x ∷ xs) = ap suc (length-set i v xs)

abbrev pub IsWeek : ℕ × List ℕ → Type 0
IsWeek e = length e.1 ≡ 7

record_day-IsWeek :
    (queue i v : ℕ) (daily : List (ℕ × List ℕ))
    → All IsWeek daily
    → All IsWeek (record_day queue i v daily)
unfolding record_day
record_day-IsWeek queue i v [] h = (length-set i v zeros, tt)
record_day-IsWeek queue i v ((q, days) ∷ daily) h = elim (Bool-cases (q == queue)) [
  | inl e ↦ rw e (length-set i v days ∙ h.0, h.1)
  | inr e ↦ rw e (h.0, record_day-IsWeek queue i v daily h.1)
]

counted-IsWeek :
    (r : ActivityRow) (slot : Option ℕ) (daily : List (ℕ × List ℕ))
    → All IsWeek daily
    → All IsWeek (counted r slot daily)
counted-IsWeek r none daily h = h
counted-IsWeek r (some i) daily h = record_day-IsWeek r.queue i (as_usize r.done_count) daily h

-- Every queue of the activity map has an array of seven days, whatever the activity rows are.
daily_activity-IsWeek :
    (today : ℕ) (rows : List ActivityRow) (daily : List (ℕ × List ℕ))
    → All IsWeek daily
    → All IsWeek (daily_activity today rows daily)
unfolding daily_activity
daily_activity-IsWeek today [] daily h = h
daily_activity-IsWeek today (r ∷ rs) daily h =
    daily_activity-IsWeek today rs (counted r (activity_slot today r.day) daily)
      (counted-IsWeek r (activity_slot today r.day) daily h)
