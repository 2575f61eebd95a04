-- ===== src/Notifications/Attempts.antt =====
-- How often a notification is attempted, in the queue and back from the dead letters
-- (src/infrastructure/queue and src/features/notifications/notifications.processor.ts).
use lior_paris_wallet.Prelude.{
  ℕ, suc, ◌+◌, ◌*◌, ◌≤◌, ◌<◌, ◌≡◌, inl, inr, Bool-cases, none, some, [], ◌∷◌, ◌++◌, arith, leb,
}
use lior_paris_wallet.Outbox.{Queue}
use lior_paris_wallet.Notifications.{
  QueueName, NotificationJob, DeadLetter, Workers, or_zero, default_job_options, on_failed,
  process_letter,
}
use lior_paris_wallet.Notifications.Rounds.{Rounds, start, again, round, snoc_ne, Rounds-bounded}

abbrev pub allowed : ℕ
allowed = elim (default_job_options QueueName.notifications).attempts [ none ↦ 1 | some n ↦ n ]

module _ (queue : Queue) where
  -- `Attempts job n job' made`: of a notification there have been `n` failed attempts, the last `made` of
  -- them of the job `job'` in the queue. BullMQ tries a job again until it has used up its attempts; then a
  -- letter may bring it back, at any later moment and in any state of the queues.
  pub data Attempts (job : NotificationJob) : ℕ → NotificationJob → ℕ → Type 0 where
    fresh : Attempts job 0 job 0
    fails :
        {n made : ℕ} {job' : NotificationJob}
        → Attempts job n job' made
        → made < allowed
        → Attempts job (suc n) job' (suc made)
    comes_back :
        {n made : ℕ} {job' job'' : NotificationJob} (letter : DeadLetter) (s s' : Workers)
        → Attempts job n job' made
        → (on_failed queue job' made
            (default_job_options QueueName.notifications).attempts
            s).1.dead_letters
          ≡ s.dead_letters ++ letter ∷ []
        → (process_letter queue letter s').1.notifications ≡ s'.notifications ++ job'' ∷ []
        → Attempts job n job'' 0

  -- A job that leaves a letter has used up its attempts.
  used_up :
      (job : NotificationJob) (made : ℕ) (letter : DeadLetter) (s : Workers)
      → (on_failed queue job made
          (default_job_options QueueName.notifications).attempts
          s).1.dead_letters
        ≡ s.dead_letters ++ letter ∷ []
      → 3 ≤ made
  unfolding on_failed default_job_options
  used_up job made letter s grown = elim (Bool-cases (leb 3 made)) [
    | inl spent ↦ ground (arith, spent)
    | inr more ↦ absurd (snoc_ne s.dead_letters letter (rw more at grown))
  ]

  -- The attempts are those of the rounds, three in each, and those since.
  Attempts-Rounds :
      (job : NotificationJob) {n : ℕ} {job' : NotificationJob} {made : ℕ}
      → Attempts job n job' made
      → (k : ℕ) × Rounds queue job k job' × (n ≡ 3 * k + made) × (made ≤ 3)
  unfolding default_job_options
  Attempts-Rounds job fresh = (0, start, omega arith, omega arith)
  Attempts-Rounds job (fails before below) =
      let (k, rounds, count, few) = Attempts-Rounds job before in
      (k, rounds, omega (arith, count), omega (arith, below))
  Attempts-Rounds job (comes_back {n} {made} {job'} {job''} letter s s' before failed back) =
      let (k, rounds, count, few) = Attempts-Rounds job before in
      let spent = used_up job' made letter s failed in
      (
        suc k,
        again rounds (round made _ letter s s' failed back),
        omega (arith, count, few, spent),
        omega arith,
      )

  -- A notification that starts with no count is attempted at most twelve times, three times for the job and
  -- three for each of the at most three times that it comes back from the dead letters, and every time with
  -- its event and its payload.
  pub Attempts-bounded :
      (job job' : NotificationJob) (n made : ℕ)
      → job.dlq_count ≡ none
      → Attempts job n job' made
      → (n ≤ 12)
        × (n ≡ 3 * or_zero job'.dlq_count + made)
        × (made ≤ 3)
        × (or_zero job'.dlq_count ≤ 3)
        × (job'.event_name ≡ job.event_name)
        × (job'.payload ≡ job.payload)
  Attempts-bounded job job' n made uncounted attempts =
      let (k, rounds, count, few) = Attempts-Rounds job attempts in
      let (back, counted, event, payload) = Rounds-bounded queue job job' k uncounted rounds in
      (
        omega (arith, count, few, back),
        omega (arith, count, counted),
        few,
        omega (arith, back, counted),
        event,
        payload,
      )
