-- ===== src/BackgroundJobs/Repeated.antt =====
-- A checkpoint that is sent again.
use mathlib.Core.Path.{subst}
use mathews.BackgroundJobs.{
  BackgroundJob, BackgroundJobLease, BackgroundJobCheckpoint, Queue, JobLeaseGrant, update_job,
  update_lease,
}
use mathews.BackgroundJobs.Progress.{
  Digests, current_lease, CheckpointCommand, JobCheckpointResult, Progress, find_checkpoint,
  is_same_progress, new_checkpoint, advanced_job, advanced_lease, append_new, append_or_replay,
  append_checkpoint, checkpoint,
}
use mathews.BackgroundJobs.Held.{current_lease-Holds}
use mathews.BackgroundJobs.Fenced.{find_job-id}
use mathews.Common.Queries.{All}
use mathews.Common.{
  ap, ℕ, ◌≡◌, true, false, ok, >>=-eq-ok, arith, Option-cases, inl, inr, sym, ◌∙◌, ◌∷◌, ◌+◌, refl,
  ◌≢◌, none, some, Option, List, [], ◌++◌, Bool-cases, ◌==◌,
}

-- What recording the same progress again gives, for the job and the lease as they are then.
abbrev again : Progress → BackgroundJob → BackgroundJobLease → Progress
again out job lease = record {
  queue = out.queue;
  job = job;
  lease = lease;
  result = record out.result { replayed = true };
}

append_checkpoint_repeated :
    (x : Digests) (now later : ℕ) (c : CheckpointCommand) (job job' : BackgroundJob)
    (lease lease' : BackgroundJobLease) (q : Queue) (out : Progress)
    → job'.id ≡ job.id
    → append_checkpoint x now c job lease q ≡ ok out
    → append_checkpoint x later c job' lease' out.queue ≡ ok (again out job' lease')
unfolding append_checkpoint append_or_replay append_new find_checkpoint is_same_progress
    new_checkpoint
append_checkpoint_repeated x now later c job job' lease lease' q out same h =
    elim (Option-cases (find_checkpoint c.idempotency_key q.checkpoints)) [
      | inl e ↦
          let stored : Progress = record {
            queue = record q {
              jobs = update_job (advanced_job c lease job) q.jobs;
              leases = update_lease (advanced_lease c lease) q.leases;
              checkpoints = new_checkpoint x now c job lease ∷ q.checkpoints;
            };
            job = advanced_job c lease job;
            lease = advanced_lease c lease;
            result = record {
              checkpoint_id = c.new_id;
              sequence = c.expected_version + 1;
              replayed = false;
            };
          } in
          let known : stored ≡ out = ground arith in
          subst (λ o. append_checkpoint x later c job' lease' o.queue ≡ ok (again o job' lease'))
            known (ground arith)
      | inr (row, e) ↦
          let stored : Progress = record {
            queue = q;
            job = job;
            lease = lease;
            result = record { checkpoint_id = row.id; sequence = row.sequence; replayed = true };
          } in
          let known : stored ≡ out = ground arith in
          subst (λ o. append_checkpoint x later c job' lease' o.queue ≡ ok (again o job' lease'))
            known (ground arith)
    ]

-- A replay is the same on other tables.
append_or_replay-elsewhere :
    (x : Digests) (now : ℕ) (c : CheckpointCommand) (job : BackgroundJob)
    (lease : BackgroundJobLease) (q k : Queue) (o : Option BackgroundJobCheckpoint) (out : Progress)
    → append_or_replay x now c job lease q o ≡ ok out
    → out.result.replayed ≡ true
    → append_or_replay x now c job lease k o ≡ ok (record out { queue = k })
unfolding append_or_replay append_new
append_or_replay-elsewhere x now c job lease q k none out h replayed = ground arith
append_or_replay-elsewhere x now c job lease q k (some existing) out h replayed = ground arith

-- The checkpoints have another key.
abbrev pub HaveOtherKeys : ℕ → List BackgroundJobCheckpoint → Type 0
HaveOtherKeys key rows = All (λ (row : BackgroundJobCheckpoint). row.idempotency_key ≢ key) rows

find_checkpoint-after :
    (key : ℕ) (newer rows : List BackgroundJobCheckpoint)
    → HaveOtherKeys key newer
    → find_checkpoint key (newer ++ rows) ≡ find_checkpoint key rows
unfolding find_checkpoint
find_checkpoint-after key [] rows others = refl
find_checkpoint-after key (row ∷ newer) rows (other, others) =
    elim (Bool-cases (row.idempotency_key == key)) [
      | inl t ↦ absurd (other (ground arith))
      | inr t ↦ rw t (find_checkpoint-after key newer rows others)
    ]

-- Once a checkpoint of a worker has been accepted, the same checkpoint on any tables where only
-- checkpoints of other keys have been added since, whatever the rest of the tables holds, and where the
-- lease is current, changes nothing and answers with the same row and sequence, as replayed.
pub checkpoint_repeated :
    (x : Digests) (now later : ℕ) (g : JobLeaseGrant) (c : CheckpointCommand) (q q' k : Queue)
    (r : JobCheckpointResult) (newer : List BackgroundJobCheckpoint) (job' : BackgroundJob)
    (lease' : BackgroundJobLease)
    → checkpoint x now g c q ≡ ok (q', r)
    → HaveOtherKeys c.idempotency_key newer
    → k.checkpoints ≡ newer ++ q'.checkpoints
    → current_lease later g k ≡ ok (job', lease')
    → checkpoint x later g c k ≡ ok (k, record r { replayed = true })
unfolding checkpoint append_checkpoint
checkpoint_repeated x now later g c q q' k r newer job' lease' h others added current =
    let ((job, lease), e, h₁) = >>=-eq-ok (current_lease now g q) _ h in
    let (out, f, h₂) = >>=-eq-ok (append_checkpoint x now c job lease q) _ h₁ in
    let before = (current_lease-Holds now g q job lease e).found in
    let after = (current_lease-Holds later g k job' lease' current).found in
    let same : job'.id ≡ job.id =
      find_job-id g.job_id k.jobs job' after ∙ sym (find_job-id g.job_id q.jobs job before) in
    let repeated = append_checkpoint_repeated x now later c job job' lease lease' q out same f in
    let stored : (out.queue, out.result) ≡ (q', r) = cc in
    let row : find_checkpoint c.idempotency_key k.checkpoints
        ≡ find_checkpoint c.idempotency_key out.queue.checkpoints =
      ap (find_checkpoint c.idempotency_key) added
      ∙ find_checkpoint-after c.idempotency_key newer q'.checkpoints others
      ∙ ap (λ (p : Queue × JobCheckpointResult). find_checkpoint c.idempotency_key p.0.checkpoints)
          (sym stored) in
    let there : append_checkpoint x later c job' lease' k
        ≡ ok (record (again out job' lease') { queue = k }) =
      ap (append_or_replay x later c job' lease' k) row
      ∙ append_or_replay-elsewhere x later c job' lease' out.queue k _ (again out job' lease')
          repeated refl in
    rw (current, there)
      (ap (λ (p : Queue × JobCheckpointResult). ok (k, record p.1 { replayed = true })) stored)
