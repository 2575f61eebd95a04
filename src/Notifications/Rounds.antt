-- ===== src/Notifications/Rounds.antt =====
-- How often a notification that keeps failing comes back from the dead letters
-- (src/infrastructure/queue/dead-letter.processor.ts).
use lior_paris_wallet.Prelude.{
  ℕ, suc, ◌+◌, ◌≤◌, ◌<◌, ◌≡◌, ◌∙◌, refl, sym, inl, inr, Bool-cases, Option, none, some, List, [],
  ◌∷◌, ◌++◌, arith, leb,
}
use lior_paris_wallet.Result.{Result, ok, err}
use lior_paris_wallet.Outbox.{Queue}
use lior_paris_wallet.Notifications.{
  NotificationJob, DeadLetter, Workers, or_zero, letter_of, on_failed, process_letter,
}

module _ {A : Type 0} where
  pub snoc_ne : (xs : List A) (a : A) → xs ≡ xs ++ a ∷ [] → ⊥
  snoc_ne [] a h = cc
  snoc_ne (x ∷ xs) a h = snoc_ne xs a (cc)

  snoc_inj : (xs : List A) (a b : A) → xs ++ a ∷ [] ≡ xs ++ b ∷ [] → a ≡ b
  snoc_inj [] a b h = cc
  snoc_inj (x ∷ xs) a b h = snoc_inj xs a b (cc)

module _ (queue : Queue) where
  -- What `add` has added, if the list has grown, is the job.
  added_is :
      {J : Type 0} (now : ℕ) (j k : J) (jobs : List J) (r : Result Unit × List J)
      → queue.add now j jobs ≡ r
      → r.1 ≡ jobs ++ k ∷ []
      → k ≡ j
  added_is now j k jobs (ok u, jobs') q grown =
      snoc_inj jobs k j (sym grown ∙ queue.add-ok now j jobs jobs' q)
  added_is now j k jobs (err x, jobs') q grown = elim (queue.add-err now j jobs jobs' x q) [
    | inl same ↦ absurd (snoc_ne jobs k (sym same ∙ grown))
    | inr more ↦ snoc_inj jobs k j (sym grown ∙ more)
  ]

  -- A round of a job: it fails for good and leaves a letter, and the processor of the dead letters
  -- puts a job back. The two happen at any moments, in any states.
  pub data Round (job job' : NotificationJob) : Type 0 where
    round :
        (made : ℕ) (attempts : Option ℕ) (letter : DeadLetter) (s s' : Workers)
        → (on_failed queue job made attempts s).1.dead_letters ≡ s.dead_letters ++ letter ∷ []
        → (process_letter queue letter s').1.notifications ≡ s'.notifications ++ job' ∷ []
        → Round job job'

  pub data Rounds (job : NotificationJob) : ℕ → NotificationJob → Type 0 where
    start : Rounds job 0 job
    again :
        {n : ℕ} {job' job'' : NotificationJob}
        → Rounds job n job'
        → Round job' job''
        → Rounds job (suc n) job''

  on_failed_letter :
      (job : NotificationJob) (made : ℕ) (attempts : Option ℕ) (letter : DeadLetter) (s : Workers)
      → (on_failed queue job made attempts s).1.dead_letters ≡ s.dead_letters ++ letter ∷ []
      → letter ≡ letter_of job
  unfolding on_failed
  on_failed_letter job made attempts letter s grown =
      elim (Bool-cases (leb (elim attempts [ none ↦ 1 | some n ↦ n ]) made)) [
        | inr more ↦ absurd (snoc_ne s.dead_letters letter (rw more at grown))
        | inl spent ↦
            added_is s.clock (letter_of job) letter s.dead_letters _ refl (rw spent at grown)
      ]

  process_letter_job :
      (job job' : NotificationJob) (s : Workers)
      → (process_letter queue (letter_of job) s).1.notifications ≡ s.notifications ++ job' ∷ []
      → (or_zero job.dlq_count < 3)
        × (job' ≡ record job { dlq_count = some (or_zero job.dlq_count + 1) })
  unfolding process_letter
  process_letter_job job job' s grown = elim (Bool-cases (leb 3 (or_zero job.dlq_count))) [
    | inl often ↦ absurd (snoc_ne s.notifications job' (rw often at grown))
    | inr rarely ↦ (
      ground (arith, rarely),
      added_is s.clock (record job { dlq_count = some (or_zero job.dlq_count + 1) }) job'
          s.notifications _ refl (rw rarely at grown),
    )
  ]

  -- One round: the count was below three, and goes up by one; the rest of the job stays.
  Round-count :
      (job job' : NotificationJob)
      → Round job job'
      → (or_zero job.dlq_count < 3)
        × (job' ≡ record job { dlq_count = some (or_zero job.dlq_count + 1) })
  Round-count job job' (round made attempts letter s s' failed back) =
      let mine = on_failed_letter job made attempts letter s failed in
      process_letter_job job job' s' (rw mine at back)

  -- A notification that starts with no count comes back from the dead letters at most three times,
  -- however often it fails, and every time with its event and its payload.
  pub Rounds-bounded :
      (job job' : NotificationJob) (n : ℕ)
      → job.dlq_count ≡ none
      → Rounds job n job'
      → (n ≤ 3)
        × (or_zero job'.dlq_count ≡ n)
        × (job'.event_name ≡ job.event_name)
        × (job'.payload ≡ job.payload)
  Rounds-bounded job job' n fresh start = (omega arith, rw fresh refl, refl, refl)
  Rounds-bounded job job'' k fresh (again {n} {job'} before last) =
      let (below, count, event, payload) = Rounds-bounded job job' n fresh before in
      let (more, next) = Round-count job' job'' last in
      (omega (arith, count, more), rw next (omega (arith, count)), rw next event, rw next payload)
