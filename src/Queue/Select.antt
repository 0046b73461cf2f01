-- ===== src/Queue/Select.antt =====
-- Which row `_select_claimable_queue_job` picks.
use issue_to_pr_agent.Prelude.{
  suc, ◌≤◌, ◌≡◌, refl, Bool, true, false, Option, none, some, List, [], ◌∷◌, arith, In, filter,
  length, take_all, if◌then◌else◌, Bool-cases, inl, inr, ◌⊎◌, In-take, In-filter, filter-In,
}
use issue_to_pr_agent.Queue.Store.{QueueRow}
use issue_to_pr_agent.Queue.Claim.{
  ClaimRequest, is_candidate, insert_in_order, order_by, candidates, is_eligible, is_fairer,
  take_fairer, scan, select_claimable,
}

-- The query.
In-insert :
    (a : QueueRow) (xs : List QueueRow) (x : QueueRow)
    → In x (insert_in_order a xs)
    → (x ≡ a) ⊎ In x xs
unfolding insert_in_order
In-insert a [] x m = m
In-insert a (y ∷ ys) x m = ground (arith, In-insert a ys x)

insert-In :
    (a : QueueRow) (xs : List QueueRow) (x : QueueRow)
    → (x ≡ a) ⊎ In x xs
    → In x (insert_in_order a xs)
unfolding insert_in_order
insert-In a [] x m = m
insert-In a (y ∷ ys) x m = ground (arith, insert-In a ys x)

In-order_by : (xs : List QueueRow) (x : QueueRow) → In x (order_by xs) → In x xs
unfolding order_by
In-order_by [] x m = m
In-order_by (y ∷ ys) x m = ground (arith, In-insert y (order_by ys) x, In-order_by ys x)

order_by-In : (xs : List QueueRow) (x : QueueRow) → In x xs → In x (order_by xs)
unfolding order_by
order_by-In [] x m = m
order_by-In (y ∷ ys) x m = ground (arith, insert-In y (order_by ys) x, order_by-In ys x)

length-insert :
    (a : QueueRow) (xs : List QueueRow) → length (insert_in_order a xs) ≡ suc (length xs)
unfolding insert_in_order
length-insert a [] = refl
length-insert a (y ∷ ys) = ground (arith, length-insert a ys)

length-order_by : (xs : List QueueRow) → length (order_by xs) ≡ length xs
unfolding order_by
length-order_by [] = refl
length-order_by (y ∷ ys) = ground (arith, length-insert y (order_by ys), length-order_by ys)

length-filter-le : (p : QueueRow → Bool) (xs : List QueueRow) → length (filter p xs) ≤ length xs
length-filter-le p [] = omega arith
length-filter-le p (y ∷ ys) = ground (arith, length-filter-le p ys)

pub candidates_sound :
    (req : ClaimRequest) (rows : List QueueRow) (x : QueueRow)
    → In x (candidates req rows)
    → In x rows × (is_candidate req x ≡ true)
unfolding candidates
candidates_sound req rows x m =
    In-filter (is_candidate req) rows x (In-order_by _ x (In-take req.candidate_scan_limit _ x m))

pub candidates_complete :
    (req : ClaimRequest) (rows : List QueueRow) (x : QueueRow)
    → length rows ≤ req.candidate_scan_limit
    → In x rows
    → is_candidate req x ≡ true
    → In x (candidates req rows)
unfolding candidates
candidates_complete req rows x fits m h =
    let wanted = filter (is_candidate req) rows in
    rw
      (take_all req.candidate_scan_limit (order_by wanted)
        (omega (arith, length-order_by wanted, length-filter-le (is_candidate req) rows)))
      (order_by-In wanted x (filter-In (is_candidate req) rows x m h))

-- The loop.
module _ (req : ClaimRequest) (rows : List QueueRow) where
  -- What holds of every eligible row that was fetched holds of the selected one.
  scan_sound :
      (selected : Option QueueRow) (rest : List QueueRow) (best : QueueRow)
      → scan req rows selected rest ≡ some best
      → (selected ≡ some best) ⊎ (In best rest × (is_eligible req rows best ≡ true))
  unfolding scan take_fairer
  scan_sound selected [] best h = inl h
  scan_sound selected (r ∷ rest) best h = ground (
    arith,
    scan_sound (if is_eligible req rows r then take_fairer rows selected r else selected) rest best,
  )

  fairer-chain :
      (x r best : QueueRow)
      → is_fairer rows r best ≡ true
      → is_fairer rows x best ≡ false
      → is_fairer rows x r ≡ false
  unfolding is_fairer
  fairer-chain x r best h k = ground arith

  fairer_irrefl : (x : QueueRow) → is_fairer rows x x ≡ false
  unfolding is_fairer
  fairer_irrefl x = ground arith

  step_keeps :
      (x s r : QueueRow)
      → is_fairer rows x s ≡ false
      → (next : QueueRow) × ((if is_eligible req rows r
            then take_fairer rows (some s) r
            else some s)
          ≡ some next)
        × (is_fairer rows x next ≡ false)
  unfolding take_fairer
  step_keeps x s r h = elim (Bool-cases (is_eligible req rows r)) [
    | inr not_eligible ↦ (s, rw not_eligible, h)
    | inl eligible ↦ elim (Bool-cases (is_fairer rows r s)) [
      | inl fairer ↦ (r, rw (eligible, fairer), fairer-chain x r s fairer h)
      | inr not_fairer ↦ (s, rw (eligible, not_fairer), h)
    ]
  ]

  -- Once a row that `x` does not beat is selected, `x` does not beat the row that ends up selected.
  scan_keeps :
      (x s : QueueRow) (rest : List QueueRow)
      → is_fairer rows x s ≡ false
      → (best : QueueRow) × (scan req rows (some s) rest ≡ some best)
        × (is_fairer rows x best ≡ false)
  unfolding scan
  scan_keeps x s [] h = (s, refl, h)
  scan_keeps x s (r ∷ rest) h =
      let (next, e, k) = step_keeps x s r h in rw e (scan_keeps x next rest k)

  step_takes :
      (selected : Option QueueRow) (r : QueueRow)
      → is_eligible req rows r ≡ true
      → (next : QueueRow) × ((if is_eligible req rows r
            then take_fairer rows selected r
            else selected)
          ≡ some next)
        × (is_fairer rows r next ≡ false)
  unfolding take_fairer
  step_takes none r h = (r, rw h, fairer_irrefl r)
  step_takes (some s) r h = elim (Bool-cases (is_fairer rows r s)) [
    | inl fairer ↦ (r, rw (h, fairer), fairer_irrefl r)
    | inr not_fairer ↦ (s, rw (h, not_fairer), not_fairer)
  ]

  scan_best :
      (x : QueueRow) (selected : Option QueueRow) (rest : List QueueRow)
      → In x rest
      → is_eligible req rows x ≡ true
      → (best : QueueRow) × (scan req rows selected rest ≡ some best)
        × (is_fairer rows x best ≡ false)
  unfolding scan
  scan_best x selected [] m h = absurd m
  scan_best x selected (r ∷ rest) (inl e) h =
      let (next, taken, k) = step_takes selected r (rw e at h) in
      rw taken (scan_keeps x next rest (rw e k))
  scan_best x selected (r ∷ rest) (inr m) h =
      scan_best x (if is_eligible req rows r then take_fairer rows selected r else selected) rest m
        h

-- The selected row is one of the rows, fits the query and passes the tests of the loop.
pub select_claimable_sound :
    (req : ClaimRequest) (rows : List QueueRow) (best : QueueRow)
    → select_claimable req rows ≡ some best
    → In best rows × (is_candidate req best ≡ true) × (is_eligible req rows best ≡ true)
unfolding select_claimable
select_claimable_sound req rows best h =
    elim (scan_sound req rows none (candidates req rows) best h) [
      | inl impossible ↦ cc
      | inr (m, eligible) ↦
          let (there, fits) = candidates_sound req rows best m in (there, fits, eligible)
    ]

-- If the scan limit does not cut the rows, a job that is queued, due, not cancelled, of an allowed
-- type, and that passes the tag, concurrency and tenant tests makes the selection succeed, and the
-- selected job is no less fair than it: priority first, then the fewer running jobs of the tenant,
-- then the earlier creation.
pub select_claimable_best :
    (req : ClaimRequest) (rows : List QueueRow) (x : QueueRow)
    → length rows ≤ req.candidate_scan_limit
    → In x rows
    → is_candidate req x ≡ true
    → is_eligible req rows x ≡ true
    → (best : QueueRow) × (select_claimable req rows ≡ some best) × (is_fairer rows x best ≡ false)
unfolding select_claimable
select_claimable_best req rows x fits m candidate eligible =
    scan_best req rows x none (candidates req rows)
      (candidates_complete req rows x fits m candidate) eligible
