-- ===== src/Store/Tokens.antt =====
-- Claim tokens, after a claim (ClaimNextJob, ClaimNextRestore and the statements that ask for a token).
use cprestic.Common.{
  ℕ, ◌≡◌, ◌≢◌, inl, inr, false, List, ◌==◌, arith, ok, err, any, In, In-update_cases, any-false,
  Bool-cases, Text, if◌then◌else◌, subst,
}
use cprestic.Store.{Store, BackupJob, RestoreJob, not_found}
use cprestic.Store.Jobs.{ClaimedJob, claim_next_job, lease_job}
use cprestic.Store.Reports.{TargetReport, apply_report, held_by}
use cprestic.Store.Leases.{renew_backup_lease, renew_restore_lease, restore_held_by}
use cprestic.Store.Restores.{
  ClaimedRestore, RestoreOutcome, claim_next_restore, lease_restore, apply_restore_report,
}
use cprestic.Store.Effects.{claim_next_job-inv, claim_next_restore-inv}

old_not_held :
    (s u : Store) (lease token now server_id old : ℕ) (job a b : BackupJob)
    → old ≢ token
    → (if a.id == job.id then lease_job now lease token a else a) ≡ b
    → held_by u server_id job.id old b ≡ false
old_not_held s u lease token now server_id old job a b ne e = elim (Bool-cases (a.id == job.id)) [
  | inl hit ↦ ground (arith, rw hit at e)
  | inr miss ↦ ground (arith, rw miss at e)
]

-- Once a job is claimed anew, a report or a renewal under any other token is refused, whichever
-- server it comes from.
pub claim_next_job-refuses_old :
    (s t : Store) (server_id lease token now : ℕ) (c : ClaimedJob)
    → claim_next_job s server_id lease token now ≡ ok (c, t)
    → (sender old : ℕ) → old ≢ token
    → (reports : List TargetReport) (staging_error : Text) (lease' now' : ℕ)
    → (apply_report t sender c.job_id old reports staging_error now' ≡ err not_found)
      × (renew_backup_lease t sender c.job_id old lease' now' ≡ err not_found)
unfolding apply_report renew_backup_lease
claim_next_job-refuses_old s t server_id lease token now c h sender old ne reports staging_error
      lease' now' =
    let (_, job, _, _, _, e, id, _, _, _) = claim_next_job-inv s t server_id lease token now c h in
    let refused : any (held_by t sender job.id old) t.backup_jobs ≡ false =
      any-false (held_by t sender job.id old) t.backup_jobs λ b m.
        let (a, _, p) =
          In-update_cases (λ (j : BackupJob). j.id == job.id) (lease_job now lease token) b
            s.backup_jobs (subst (λ (w : Store). In b w.backup_jobs) e m) in
        old_not_held s t lease token now sender old job a b ne p in
    rw id (rw refused, rw refused)

old_restore_not_held :
    (u : Store) (lease token now server_id old : ℕ) (r a b : RestoreJob)
    → old ≢ token
    → (if a.id == r.id then lease_restore now lease token a else a) ≡ b
    → restore_held_by u server_id r.id old b ≡ false
old_restore_not_held u lease token now server_id old r a b ne e = elim (Bool-cases (a.id == r.id)) [
  | inl hit ↦ ground (arith, rw hit at e)
  | inr miss ↦ ground (arith, rw miss at e)
]

-- The same of a restore, so an abandoned attempt cannot close the one that is writing now.
pub claim_next_restore-refuses_old :
    (s t : Store) (server_id lease token now : ℕ) (c : ClaimedRestore)
    → claim_next_restore s server_id lease token now ≡ ok (c, t)
    → (sender old : ℕ) → old ≢ token
    → (outcome : RestoreOutcome) (lease' now' : ℕ)
    → (apply_restore_report t sender c.job_id old outcome now' ≡ err not_found)
      × (renew_restore_lease t sender c.job_id old lease' now' ≡ err not_found)
unfolding apply_restore_report renew_restore_lease
claim_next_restore-refuses_old s t server_id lease token now c h sender old ne outcome lease' now' =
    let (r, _, e, id, _) = claim_next_restore-inv s t server_id lease token now c h in
    let refused : any (restore_held_by t sender r.id old) t.restore_jobs ≡ false =
      any-false (restore_held_by t sender r.id old) t.restore_jobs λ b m.
        let (a, _, p) =
          In-update_cases (λ (o : RestoreJob). o.id == r.id) (lease_restore now lease token) b
            s.restore_jobs (subst (λ (w : Store). In b w.restore_jobs) e m) in
        old_restore_not_held t lease token now sender old r a b ne p in
    rw id (rw refused, rw refused)
