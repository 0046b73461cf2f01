-- ===== src/Queue/Rows.antt =====
-- Rows under `UPDATE … WHERE job_id = ?`, and what a primary key gives.
use issue_to_pr_agent.Prelude.{
  ℕ, ◌+◌, ◌≤◌, ◌≡◌, refl, String, Bool, List, [], ◌∷◌, ◌++◌, map, arith, ◌==◌, eq_iff, Option, none,
  some, eq_refl, if◌then◌else◌, filter, count, find, is_some, not, count-append,
}
use issue_to_pr_agent.Queue.Store.{
  QueueRow, has_id, insert_or_replace, requeue_row, requeued, requeue_expired, runs_for,
  count_running_jobs,
}
use issue_to_pr_agent.Queue.Claim.{update_row}

-- No two rows have the same `job_id`.
abbrev pub UniqueIds : List QueueRow → Type 0
UniqueIds [] = Unit
UniqueIds (r ∷ rs) = (count (has_id r.job.job_id) rs ≡ 0) × UniqueIds rs

unfoldable pub one_if : Bool → ℕ
one_if b = if b then 1 else 0

count-update_absent :
    (p : QueueRow → Bool) (new : QueueRow) (rows : List QueueRow)
    → count (has_id new.job.job_id) rows ≡ 0
    → count p (update_row new rows) ≡ count p rows
unfolding update_row
count-update_absent p new [] h = refl
count-update_absent p new (r ∷ rs) h = ground (arith, count-update_absent p new rs)

-- One row at most is replaced, so a count grows by one at most, and only if the new row counts.
pub count-update-le :
    (p : QueueRow → Bool) (new : QueueRow) (rows : List QueueRow)
    → UniqueIds rows
    → count p (update_row new rows) ≤ count p rows + one_if (p new)
unfolding update_row one_if
count-update-le p new [] u = omega arith
count-update-le p new (r ∷ rs) u = ground (
  arith,
  count-update-le p new rs,
  count-update_absent p new rs,
  eq_iff r.job.job_id new.job.job_id,
)

count_ids-update :
    (id : String) (new : QueueRow) (rows : List QueueRow)
    → count (has_id id) (update_row new rows) ≡ count (has_id id) rows
unfolding update_row
count_ids-update id new [] = refl
count_ids-update id new (r ∷ rs) =
    ground (arith, count_ids-update id new rs, eq_iff r.job.job_id new.job.job_id)

pub update_row-UniqueIds :
    (new : QueueRow) (rows : List QueueRow) → UniqueIds rows → UniqueIds (update_row new rows)
unfolding update_row
update_row-UniqueIds new [] u = tt
update_row-UniqueIds new (r ∷ rs) u = ground (
  arith,
  update_row-UniqueIds new rs,
  eq_iff r.job.job_id new.job.job_id,
  count_ids-update new.job.job_id new rs,
  count_ids-update r.job.job_id new rs,
)

-- `INSERT OR REPLACE` removes the row with the key and appends one.
count_ids-remove :
    (id gone : String) (rows : List QueueRow)
    → count (has_id id) (filter (λ r. not (has_id gone r)) rows)
      ≡ (if id == gone then 0 else count (has_id id) rows)
count_ids-remove id gone [] = ground arith
count_ids-remove id gone (r ∷ rs) = ground (
  arith,
  count_ids-remove id gone rs,
  eq_iff r.job.job_id gone,
  eq_iff r.job.job_id id,
  eq_iff id gone,
)

remove-UniqueIds :
    (gone : String) (rows : List QueueRow)
    → UniqueIds rows
    → UniqueIds (filter (λ r. not (has_id gone r)) rows)
remove-UniqueIds gone [] u = tt
remove-UniqueIds gone (r ∷ rs) u = ground (
  arith,
  remove-UniqueIds gone rs,
  count_ids-remove r.job.job_id gone rs,
  eq_iff r.job.job_id gone,
)

snoc-UniqueIds :
    (rows : List QueueRow) (new : QueueRow)
    → UniqueIds rows
    → count (has_id new.job.job_id) rows ≡ 0
    → UniqueIds (rows ++ new ∷ [])
snoc-UniqueIds [] new u h = (refl, tt)
snoc-UniqueIds (r ∷ rs) new u h = ground (
  arith,
  snoc-UniqueIds rs new,
  count-append (has_id r.job.job_id) rs (new ∷ []),
  eq_iff r.job.job_id new.job.job_id,
  eq_iff new.job.job_id r.job.job_id,
)

pub insert_or_replace-UniqueIds :
    (new : QueueRow) (rows : List QueueRow)
    → UniqueIds rows
    → UniqueIds (insert_or_replace new rows)
unfolding insert_or_replace
insert_or_replace-UniqueIds new rows u =
    let id = new.job.job_id in
    snoc-UniqueIds _ new (remove-UniqueIds id rows u)
      (ground (arith, count_ids-remove id id rows, eq_refl id))

count-remove-le :
    (p : QueueRow → Bool) (gone : String) (rows : List QueueRow)
    → count p (filter (λ r. not (has_id gone r)) rows) ≤ count p rows
count-remove-le p gone [] = omega arith
count-remove-le p gone (r ∷ rs) = ground (arith, count-remove-le p gone rs)

-- A saved row adds one to a count at most, and only if it counts.
pub count-insert_or_replace-le :
    (p : QueueRow → Bool) (new : QueueRow) (rows : List QueueRow)
    → count p (insert_or_replace new rows) ≤ count p rows + one_if (p new)
unfolding insert_or_replace one_if
count-insert_or_replace-le p new rows = ground (
  arith,
  count-remove-le p new.job.job_id rows,
  count-append p (filter (λ r. not (has_id new.job.job_id r)) rows) (new ∷ []),
)

-- The row with the key is the new one, and every other key finds what it found.
find-remove :
    (id gone : String) (rows : List QueueRow)
    → find (has_id id) (filter (λ r. not (has_id gone r)) rows)
      ≡ (if gone == id then none else find (has_id id) rows)
find-remove id gone [] = ground arith
find-remove id gone (r ∷ rs) = ground (
  arith,
  find-remove id gone rs,
  eq_iff r.job.job_id gone,
  eq_iff r.job.job_id id,
  eq_iff gone id,
)

find-append :
    (p : QueueRow → Bool) (xs ys : List QueueRow)
    → find p (xs ++ ys) ≡ (if is_some (find p xs) then find p xs else find p ys)
find-append p [] ys = refl
find-append p (x ∷ xs) ys = ground (arith, find-append p xs ys)

pub find-insert_or_replace :
    (id : String) (new : QueueRow) (rows : List QueueRow)
    → find (has_id id) (insert_or_replace new rows)
      ≡ (if has_id id new then some new else find (has_id id) rows)
unfolding insert_or_replace
find-insert_or_replace id new rows = ground (
  arith,
  find-remove id new.job.job_id rows,
  find-append (has_id id) (filter (λ r. not (has_id new.job.job_id r)) rows) (new ∷ []),
)

-- Requeuing keeps every key.
count_ids-requeue :
    (now : ℕ) (id : String) (rows : List QueueRow)
    → count (has_id id) (map (requeue_row now) rows) ≡ count (has_id id) rows
unfolding requeued
count_ids-requeue now id [] = refl
count_ids-requeue now id (r ∷ rs) = ground (arith, count_ids-requeue now id rs)

requeue-UniqueIds :
    (now : ℕ) (rows : List QueueRow) → UniqueIds rows → UniqueIds (map (requeue_row now) rows)
unfolding requeued
requeue-UniqueIds now [] u = tt
requeue-UniqueIds now (r ∷ rs) u =
    ground (arith, requeue-UniqueIds now rs, count_ids-requeue now r.job.job_id rs)

pub requeue_expired-UniqueIds :
    (now : ℕ) (rows : List QueueRow) → UniqueIds rows → UniqueIds (requeue_expired now rows).0
unfolding requeue_expired
requeue_expired-UniqueIds now rows u = requeue-UniqueIds now rows u

count-requeue-le :
    (tenant worker key : Option String) (now : ℕ) (rows : List QueueRow)
    → count (runs_for tenant worker key) (map (requeue_row now) rows)
      ≤ count (runs_for tenant worker key) rows
unfolding requeued
count-requeue-le tenant worker key now [] = omega arith
count-requeue-le tenant worker key now (r ∷ rs) =
    ground (arith, count-requeue-le tenant worker key now rs)

-- Requeuing starts no job: no count of running jobs grows.
pub count_running-requeue-le :
    (tenant worker key : Option String) (now : ℕ) (rows : List QueueRow)
    → count_running_jobs tenant worker key (requeue_expired now rows).0
      ≤ count_running_jobs tenant worker key rows
unfolding requeue_expired count_running_jobs
count_running-requeue-le = count-requeue-le

-- A row that is found under a key has the key.
pub find-has_id :
    (id : String) (rows : List QueueRow) (r : QueueRow)
    → find (has_id id) rows ≡ some r
    → r.job.job_id ≡ id
find-has_id id [] r h = cc
find-has_id id (x ∷ xs) r h = ground (arith, find-has_id id xs r, eq_iff x.job.job_id id)
