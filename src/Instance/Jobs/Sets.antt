-- ===== src/Instance/Jobs/Sets.antt =====
-- The order in which an activation's jobs are applied.
use temporalio_sdk_python.Common.{
  ℕ, List, [], ◌∷◌, ◌++◌, ◌≡◌, refl, sym, ap, ◌∙◌, ◌==◌, ℕ_eq, keep, keep-append, length, ◌+◌,
  arith,
}
use temporalio_sdk_python.Instance.Jobs.{
  Job, JobSets, do_update, query_workflow, notify_has_patch, signal_workflow, add_job, add_jobs,
  job_sets,
}
use mathlib.Core.List.{append_assoc, append-nil}

-- The set that a job belongs to: patches, signals and updates, the rest, queries.
abbrev pub set_index : Job → ℕ
set_index (notify_has_patch id) = 0
set_index (signal_workflow job) = 1
set_index (do_update job) = 1
set_index (query_workflow job) = 3
set_index _ = 2

abbrev pub jobs_in : ℕ → List Job → List Job
jobs_in n jobs = keep (λ job. set_index job == n) jobs

record Split (sets : JobSets) (jobs : List Job) (t : JobSets) : Type 0 where
  patches : t.patches ≡ sets.patches ++ jobs_in 0 jobs
  signals_and_updates : t.signals_and_updates ≡ sets.signals_and_updates ++ jobs_in 1 jobs
  others : t.others ≡ sets.others ++ jobs_in 2 jobs
  queries : t.queries ≡ sets.queries ++ jobs_in 3 jobs

add_job-Split : (sets : JobSets) (job : Job) → Split sets (job ∷ []) (add_job sets job)
add_job-Split sets (notify_has_patch id) = record {
  patches = refl;
  signals_and_updates = sym (append-nil _);
  others = sym (append-nil _);
  queries = sym (append-nil _);
}
add_job-Split sets (signal_workflow job) = record {
  patches = sym (append-nil _);
  signals_and_updates = refl;
  others = sym (append-nil _);
  queries = sym (append-nil _);
}
add_job-Split sets (do_update job) = record {
  patches = sym (append-nil _);
  signals_and_updates = refl;
  others = sym (append-nil _);
  queries = sym (append-nil _);
}
add_job-Split sets (query_workflow job) = record {
  patches = sym (append-nil _);
  signals_and_updates = sym (append-nil _);
  others = sym (append-nil _);
  queries = refl;
}
add_job-Split sets _ = record {
  patches = sym (append-nil _);
  signals_and_updates = sym (append-nil _);
  others = refl;
  queries = sym (append-nil _);
}

joined :
    (n : ℕ) (job : Job) (jobs xs ys zs : List Job)
    → ys ≡ xs ++ jobs_in n (job ∷ [])
    → zs ≡ ys ++ jobs_in n jobs
    → zs ≡ xs ++ jobs_in n (job ∷ jobs)
joined n job jobs xs ys zs e f =
    f
    ∙ ap (λ l. l ++ jobs_in n jobs) e
    ∙ append_assoc xs (jobs_in n (job ∷ [])) (jobs_in n jobs)
    ∙ ap (λ l. xs ++ l) (sym (keep-append (λ j. set_index j == n) (job ∷ []) jobs))

add_jobs-Split : (sets : JobSets) (jobs : List Job) → Split sets jobs (add_jobs sets jobs)
add_jobs-Split sets [] = record {
  patches = sym (append-nil _);
  signals_and_updates = sym (append-nil _);
  others = sym (append-nil _);
  queries = sym (append-nil _);
}
add_jobs-Split sets (job ∷ jobs) =
    let one = add_job-Split sets job in
    let rest = add_jobs-Split (add_job sets job) jobs in
    record {
      patches = joined 0 job jobs sets.patches _ _ one.patches rest.patches;
      signals_and_updates =
          joined 1 job jobs sets.signals_and_updates _ _ one.signals_and_updates
            rest.signals_and_updates;
      others = joined 2 job jobs sets.others _ _ one.others rest.others;
      queries = joined 3 job jobs sets.queries _ _ one.queries rest.queries;
    }

length-jobs_in :
    (jobs : List Job)
    → length (jobs_in 0 jobs)
        + length (jobs_in 1 jobs)
        + length (jobs_in 2 jobs)
        + length (jobs_in 3 jobs)
      ≡ length jobs
length-jobs_in [] = refl
length-jobs_in (notify_has_patch id ∷ jobs) = omega (arith, length-jobs_in jobs)
length-jobs_in (signal_workflow job ∷ jobs) = omega (arith, length-jobs_in jobs)
length-jobs_in (do_update job ∷ jobs) = omega (arith, length-jobs_in jobs)
length-jobs_in (query_workflow job ∷ jobs) = omega (arith, length-jobs_in jobs)
length-jobs_in (_ ∷ jobs) = omega (arith, length-jobs_in jobs)

-- An activation's jobs are split stably and without loss: each of the four sets holds the jobs of its kind in the order
-- in which they came, and together the sets are as long as the activation.
pub job_sets-stable :
    (jobs : List Job)
    → let t = job_sets jobs in
      (t.patches ≡ jobs_in 0 jobs)
      × (t.signals_and_updates ≡ jobs_in 1 jobs)
      × (t.others ≡ jobs_in 2 jobs)
      × (t.queries ≡ jobs_in 3 jobs)
      × (length t.patches + length t.signals_and_updates + length t.others + length t.queries
          ≡ length jobs)
unfolding job_sets
job_sets-stable jobs =
    let s =
      add_jobs-Split (record { patches = []; signals_and_updates = []; others = []; queries = [] })
        jobs in
    (
      s.patches,
      s.signals_and_updates,
      s.others,
      s.queries,
      omega (
        arith,
        length-jobs_in jobs,
        ap (length {0}) s.patches,
        ap (length {0}) s.signals_and_updates,
        ap (length {0}) s.others,
        ap (length {0}) s.queries,
      ),
    )
