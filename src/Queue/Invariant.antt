-- ===== src/Queue/Invariant.antt =====
-- A row's columns agree with each other and with its payload, whatever the queue does.
use issue_to_pr_agent.Prelude.{
  ℕ, ◌≡◌, refl, String, Bool, false, Option, none, some, List, [], ◌∷◌, ◌++◌, map, arith, All,
  filter, find, is_some, Bool-cases, inl, inr, ◌==◌, subst, some_injective,
}
use issue_to_pr_agent.Domain.Json.{Dict, empty, entry, obj, str, nat, opt_str, get, get-put}
use issue_to_pr_agent.Domain.Queue.{status_value, is_running}
use issue_to_pr_agent.Queue.Store.{QueueRow, insert_or_replace, requeued, requeue_row}
use issue_to_pr_agent.Queue.Claim.{ClaimRequest, claimed, update_row}
use issue_to_pr_agent.Queue.Manage.{cancelled_row, resumed_row}
use issue_to_pr_agent.Queue.Process.{cancelled_after}
use issue_to_pr_agent.Queue.Finish.{Verdict, finished_row, put_given, put_result}

-- A lease is held exactly while the job runs, and the payload repeats the row's status, lease token
-- and number of attempts.
pub record RowValid (r : QueueRow) : Type 0 where
  pub held : is_some r.job.lease_token ≡ is_running r.job.status
  pub timed : is_some r.job.lease_expires_at ≡ is_running r.job.status
  pub status_shown : get "status" r.payload ≡ some (str (status_value r.job.status))
  pub token_shown : get "lease_token" r.payload ≡ some (opt_str r.job.lease_token)
  pub attempts_shown : get "attempt_count" r.payload ≡ some (nat r.job.attempt_count)

requeued-RowValid : (now : ℕ) (r : QueueRow) → RowValid r → RowValid (requeued now r)
unfolding requeued
requeued-RowValid now r v = record {
  held = refl;
  timed = refl;
  status_shown = simp get-put;
  token_shown = simp get-put;
  attempts_shown = simp get-put v.attempts_shown;
}

pub claimed-RowValid : (req : ClaimRequest) (r : QueueRow) → RowValid (claimed req r)
unfolding claimed
claimed-RowValid req r = record {
  held = refl;
  timed = refl;
  status_shown = simp get-put;
  token_shown = simp get-put;
  attempts_shown = simp get-put;
}

pub cancelled-RowValid :
    (now : ℕ) (actor : String) (r : QueueRow) → RowValid r → RowValid (cancelled_row now actor r)
unfolding cancelled_row
cancelled-RowValid now actor r v = record {
  held = ground (arith, v.held);
  timed = ground (arith, v.timed);
  status_shown = simp get-put;
  token_shown = simp get-put;
  attempts_shown = simp get-put v.attempts_shown;
}

pub resumed-RowValid : (now : ℕ) (reset : Bool) (r : QueueRow) → RowValid (resumed_row now reset r)
unfolding resumed_row
resumed-RowValid now reset r = record {
  held = refl;
  timed = refl;
  status_shown = simp get-put;
  token_shown = simp get-put;
  attempts_shown = simp get-put;
}

pub cancelled_after-RowValid :
    (worker : String) (now : ℕ) (summary : String) (r : QueueRow)
    → RowValid r
    → RowValid (cancelled_after worker now summary r)
unfolding cancelled_after
cancelled_after-RowValid worker now summary r v = record {
  held = refl;
  timed = refl;
  status_shown = simp get-put;
  token_shown = simp get-put;
  attempts_shown = simp get-put v.attempts_shown;
}

get-put_given :
    (k j : String) (o : Option String) (d : Dict)
    → (k == j) ≡ false
    → get j (put_given k o d) ≡ get j d
get-put_given k j none d h = refl
get-put_given k j (some s) d h = rw (get-put k j (str s) d, h)

get-put_result :
    (j : String) (result d : Dict) → ("result" == j) ≡ false → get j (put_result result d) ≡ get j d
get-put_result j empty d h = refl
get-put_result j (entry k v rest) d h = rw (get-put "result" j (obj (entry k v rest)) d, h)

pub finished-RowValid :
    (worker : String) (now : ℕ) (v : Verdict) (r : QueueRow)
    → is_running v.status ≡ false
    → RowValid r
    → RowValid (finished_row worker now v r)
unfolding finished_row
finished-RowValid worker now v r over valid = record {
  held = rw over;
  timed = rw over;
  status_shown = simp (
    get-put,
    get-put_result "status" _ _ refl,
    get-put_given "linked_run_id" "status" _ _ refl,
    get-put_given "linked_execution_id" "status" _ _ refl,
    get-put_given "linked_verification_id" "status" _ _ refl,
  );
  token_shown = simp get-put;
  attempts_shown =
      simp
        (
          get-put,
          get-put_result "attempt_count" _ _ refl,
          get-put_given "linked_run_id" "attempt_count" _ _ refl,
          get-put_given "linked_execution_id" "attempt_count" _ _ refl,
          get-put_given "linked_verification_id" "attempt_count" _ _ refl,
        )
        valid.attempts_shown;
}

-- Every row is valid.
abbrev pub RowsValid : List QueueRow → Type 0
RowsValid = All RowValid

pub requeue-RowsValid :
    (now : ℕ) (rows : List QueueRow) → RowsValid rows → RowsValid (map (requeue_row now) rows)
requeue-RowsValid now [] v = tt
requeue-RowsValid now (r ∷ rs) v =
    ground (arith, requeued-RowValid now r v.0, requeue-RowsValid now rs v.1)

pub update-RowsValid :
    (new : QueueRow) (rows : List QueueRow)
    → RowValid new
    → RowsValid rows
    → RowsValid (update_row new rows)
unfolding update_row
update-RowsValid new [] n v = tt
update-RowsValid new (r ∷ rs) n v = ground (arith, update-RowsValid new rs n v.1)

filter-RowsValid :
    (p : QueueRow → Bool) (rows : List QueueRow) → RowsValid rows → RowsValid (filter p rows)
filter-RowsValid p [] v = tt
filter-RowsValid p (r ∷ rs) v = ground (arith, filter-RowsValid p rs v.1)

snoc-RowsValid :
    (rows : List QueueRow) (new : QueueRow)
    → RowsValid rows
    → RowValid new
    → RowsValid (rows ++ new ∷ [])
snoc-RowsValid [] new v n = (n, tt)
snoc-RowsValid (r ∷ rs) new v n = (v.0, snoc-RowsValid rs new v.1 n)

pub insert_or_replace-RowsValid :
    (new : QueueRow) (rows : List QueueRow)
    → RowValid new
    → RowsValid rows
    → RowsValid (insert_or_replace new rows)
unfolding insert_or_replace
insert_or_replace-RowsValid new rows n v = snoc-RowsValid _ new (filter-RowsValid _ rows v) n

pub find-RowValid :
    (p : QueueRow → Bool) (rows : List QueueRow) (r : QueueRow)
    → RowsValid rows
    → find p rows ≡ some r
    → RowValid r
find-RowValid p [] r v h = cc
find-RowValid p (x ∷ xs) r v h = elim (Bool-cases (p x)) [
  | inl hit ↦ subst RowValid (some_injective (rw hit at h)) v.0
  | inr miss ↦ find-RowValid p xs r v.1 (rw miss at h)
]
