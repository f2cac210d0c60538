-- ===== src/Api/Jobs/Ownership.antt =====
-- app/api/v1/jobs.py: object-level authorization. What a user learns of the table of jobs, and what
-- a user changes there.
use what_a_secure_app_should.Base.{
  ℕ, ◌≡◌, ◌≢◌, refl, subst, sym, ◌⊎◌, inl, inr, Bool, true, false, not, Bool-cases, Option-cases,
  Option, none, some, String, List, [], ◌∷◌, ◌==◌, All, arith,
}
use what_a_secure_app_should.Base.Outcome.{Result, ok, err}
use what_a_secure_app_should.Core.Config.{Clock}
use what_a_secure_app_should.Db.{User, ProcessingJob}
use what_a_secure_app_should.Api.{Web, Uuids, commit, ◌>>=◌, serve, not_found}
use what_a_secure_app_should.Api.Jobs.{
  JobSummary, is_own, select_jobs, get_row, owned, owned_job_or_404, get_job, summary, update_job,
  delete_job,
}

-- The primary keys of a table are distinct.
abbrev pub UniqueJobs : List ProcessingJob → Type 0
UniqueJobs [] = Unit
UniqueJobs (j ∷ rows) = All (λ k. k.id ≢ j.id) rows × UniqueJobs rows

-- The state with only the jobs that pass a test.
abbrev pub keep_jobs : (ProcessingJob → Bool) → Web → Web
keep_jobs p w = record w { view = record (w.view) { jobs = select_jobs p w.view.jobs } }

get_row_absent :
    (p : ProcessingJob → Bool) (jid : ℕ) (rows : List ProcessingJob)
    → All (λ k. k.id ≢ jid) rows
    → get_row jid (select_jobs p rows) ≡ none
unfolding select_jobs
get_row_absent p jid [] h = refl
get_row_absent p jid (j ∷ rows) (h, hs) = ground (arith, get_row_absent p jid rows hs)

get_row_id :
    (jid : ℕ) (rows : List ProcessingJob) (job : ProcessingJob)
    → get_row jid rows ≡ some job
    → job.id ≡ jid
get_row_id jid [] job h = absurd (ground arith)
get_row_id jid (j ∷ rows) job h = elim (Bool-cases (j.id == jid)) [
  | inl same ↦ ground arith
  | inr other ↦ get_row_id jid rows job (ground arith)
]

owned-select :
    (user : User) (jid : ℕ) (rows : List ProcessingJob) (w : Web)
    → UniqueJobs rows
    → owned user (get_row jid (select_jobs (is_own user) rows)) w ≡ owned user (get_row jid rows) w
unfolding select_jobs
owned-select user jid [] w u = refl
owned-select user jid (j ∷ rows) w (h, u) = elim (Bool-cases (j.id == jid)) [
  | inl same ↦ elim (Bool-cases (is_own user j)) [
    | inl own ↦ rw (own, same) refl
    | inr foreign ↦
        let e : j.id ≡ jid = ground arith in
        rw (same, foreign, get_row_absent (is_own user) jid rows (rw e at h)) refl
  ]
  | inr other ↦ elim (Bool-cases (is_own user j)) [
    | inl own ↦ rw (own, other) (owned-select user jid rows w u)
    | inr foreign ↦ rw (foreign, other) (owned-select user jid rows w u)
  ]
]

-- The rest of `get_job` after the row was looked up.
abbrev answer : Uuids → User → Option ProcessingJob → Web → Result JobSummary × Web
answer uuids user row w = owned user row w >>= λ job w. (ok (summary uuids job), w)

same_answer :
    (uuids : Uuids) (user : User) (row : Option ProcessingJob) (w w' : Web)
    → w.counters ≡ w'.counters
    → ((answer uuids user row w).0 ≡ (answer uuids user row w').0)
      × ((answer uuids user row w).1.counters ≡ (answer uuids user row w').1.counters)
same_answer uuids user none w w' e = (refl, rw e refl)
same_answer uuids user (some job) w w' e = elim (Bool-cases (is_own user job)) [
  | inl own ↦ rw own (refl, e)
  | inr foreign ↦ rw foreign (refl, rw e refl)
]

-- Where primary keys are unique, what `get_job` returns or raises, and the counters it leaves,
-- are the same in the table that holds only the own undeleted jobs of the caller: a foreign or
-- deleted job cannot be told from one that does not exist.
pub get_job_own_jobs :
    (uuids : Uuids) (job_id : String) (user : User) (w : Web)
    → UniqueJobs w.view.jobs
    → let (r, w') = get_job uuids job_id user w in
      let (r_own, w_own) = get_job uuids job_id user (keep_jobs (is_own user) w) in
      (r_own ≡ r) × (w_own.counters ≡ w'.counters)
unfolding get_job owned_job_or_404
get_job_own_jobs uuids job_id user w u = elim (Option-cases (uuids.parse job_id)) [
  | inl e ↦ rw e (refl, refl)
  | inr (jid, e) ↦
      let own = keep_jobs (is_own user) w in
      rw (e, sym (owned-select user jid w.view.jobs w u))
        (same_answer uuids user (get_row jid own.view.jobs) own w refl)
]

get_row-update_job :
    (changed : ProcessingJob) (rows : List ProcessingJob) (job : ProcessingJob)
    → get_row changed.id rows ≡ some job
    → get_row changed.id (update_job changed rows) ≡ some changed
unfolding update_job
get_row-update_job changed [] job h = absurd (ground arith)
get_row-update_job changed (j ∷ rows) job h = elim (Bool-cases (j.id == changed.id)) [
  | inl same ↦ ground arith
  | inr other ↦ rw (other, other) (get_row-update_job changed rows job (ground arith))
]

update_job_absent :
    (changed : ProcessingJob) (rows : List ProcessingJob)
    → All (λ k. k.id ≢ changed.id) rows
    → update_job changed rows ≡ rows
unfolding update_job
update_job_absent changed [] h = refl
update_job_absent changed (j ∷ rows) (h, hs) = ground (arith, update_job_absent changed rows hs)

-- An update of a row that fails the test before and after keeps the rows that pass it.
select_jobs-update_job :
    (p : ProcessingJob → Bool) (changed : ProcessingJob) (rows : List ProcessingJob)
    (job : ProcessingJob)
    → UniqueJobs rows
    → get_row changed.id rows ≡ some job
    → p job ≡ false
    → p changed ≡ false
    → select_jobs p (update_job changed rows) ≡ select_jobs p rows
unfolding update_job select_jobs
select_jobs-update_job p changed [] job u h n m = absurd (ground arith)
select_jobs-update_job p changed (j ∷ rows) job (a, u) h n m =
    elim (Bool-cases (j.id == changed.id)) [
      | inl same ↦
          let e : j.id ≡ changed.id = ground arith in
          let found : j ≡ job = ground arith in
          rw (same, m, found, n, update_job_absent changed rows (rw e at a)) refl
      | inr other ↦
          let rest = select_jobs-update_job p changed rows job u (ground arith) n m in
          rw (other, rest) refl
    ]

row_after_update :
    (jid : ℕ) (changed : ProcessingJob) (rows : List ProcessingJob) (job : ProcessingJob)
    → changed.id ≡ jid
    → get_row jid rows ≡ some job
    → get_row jid (update_job changed rows) ≡ some changed
row_after_update jid changed rows job e h =
    subst (λ k. get_row k (update_job changed rows) ≡ some changed) e
      (get_row-update_job changed rows job (subst (λ k. get_row k rows ≡ some job) (sym e) h))

rows_after_update :
    (jid : ℕ) (p : ProcessingJob → Bool) (changed : ProcessingJob) (rows : List ProcessingJob)
    (job : ProcessingJob)
    → changed.id ≡ jid
    → UniqueJobs rows
    → get_row jid rows ≡ some job
    → p job ≡ false
    → p changed ≡ false
    → select_jobs p (update_job changed rows) ≡ select_jobs p rows
rows_after_update jid p changed rows job e u h =
    select_jobs-update_job p changed rows job u (subst (λ k. get_row k rows ≡ some job) (sym e) h)

abbrev pub is_foreign : User → ProcessingJob → Bool
is_foreign user job = not (job.user_id == user.id)

own_not_foreign :
    (user : User) (job : ProcessingJob) → is_own user job ≡ true → is_foreign user job ≡ false
own_not_foreign user job h = ground arith

-- Where primary keys are unique, a served `delete_job` leaves the committed jobs of every user
-- but the caller as they were, in order.
pub delete_job_keeps_foreign :
    (uuids : Uuids) (now : Clock) (job_id : String) (user : User) (w : Web)
    → UniqueJobs w.durable.jobs
    → let (r, w') = serve (delete_job uuids now job_id user) w in
      select_jobs (is_foreign user) w'.durable.jobs ≡ select_jobs (is_foreign user) w.durable.jobs
unfolding serve delete_job owned_job_or_404 commit
delete_job_keeps_foreign uuids now job_id user w u = elim (Option-cases (uuids.parse job_id)) [
  | inl e ↦ rw e refl
  | inr (jid, e) ↦ elim (Option-cases (get_row jid w.durable.jobs)) [
    | inl absent ↦ rw (e, absent) refl
    | inr (job, found) ↦ elim (Bool-cases (is_own user job)) [
      | inr foreign ↦ rw (e, found, foreign) refl
      | inl own ↦
          let id = get_row_id jid w.durable.jobs job found in
          rw (e, found, own)
            (rows_after_update jid (is_foreign user) (record job { deleted_at = some (now 0) })
              w.durable.jobs job id u found (own_not_foreign user job own)
              (own_not_foreign user job own))
    ]
  ]
]

deleted_answer :
    (uuids : Uuids) (user : User) (job : ProcessingJob) (at_time : ℕ) (w : Web)
    → (answer uuids user (some (record job { deleted_at = some at_time })) w).0 ≡ err not_found
deleted_answer uuids user job at_time w = elim (Bool-cases (job.user_id == user.id)) [
  | inl same ↦ rw same refl
  | inr other ↦ rw other refl
]

-- A served `delete_job` either raises 404 and leaves the committed database, in which case a
-- served `get_job` of the caller raises 404 too, or it succeeds, and in the state that it
-- leaves a served `get_job` of that id raises 404 for every user, the owner included.
pub delete_job_outcomes :
    (uuids : Uuids) (now : Clock) (job_id : String) (user other : User) (w : Web)
    → let (r, w') = serve (delete_job uuids now job_id user) w in
      ((r ≡ err not_found)
        × (w'.durable ≡ w.durable)
        × ((serve (get_job uuids job_id user) w).0 ≡ err not_found))
      ⊎ ((r ≡ ok tt) × ((serve (get_job uuids job_id other) w').0 ≡ err not_found))
unfolding serve delete_job get_job owned_job_or_404 commit
delete_job_outcomes uuids now job_id user other w = elim (Option-cases (uuids.parse job_id)) [
  | inl e ↦ rw e (inl (refl, refl, refl))
  | inr (jid, e) ↦ elim (Option-cases (get_row jid w.durable.jobs)) [
    | inl absent ↦ rw (e, absent) (inl (refl, refl, refl))
    | inr (job, found) ↦ elim (Bool-cases (is_own user job)) [
      | inr foreign ↦ rw (e, found, foreign) (inl (refl, refl, refl))
      | inl own ↦
          let id = get_row_id jid w.durable.jobs job found in
          let deleted = record job { deleted_at = some (now 0) } in
          let again = row_after_update jid deleted w.durable.jobs job id found in
          rw (e, found, own) (inr (refl, rw again (deleted_answer uuids other job (now 0) _)))
    ]
  ]
]
