-- ===== src/Outbox/Retries.antt =====
-- Failed attempts (src/infrastructure/outbox): how often a row is tried again, and what becomes of one
-- whose retries are used up.
use lior_paris_wallet.Prelude.{
  ◌<◌, suc, Option-cases, ℕ, ◌+◌, ◌≤◌, ◌≡◌, ◌≢◌, ◌⊎◌, ◌∙◌, ◌==◌, sym, inl, inr, refl, true, false,
  ap, Bool-cases, Option, List, [], ◌∷◌, ◌++◌, Memᴰ, arith,
}
use lior_paris_wallet.Prelude.Rows.{HasUniqueKeys, set_where-mem, mem-set_where, mem-snoc}
use lior_paris_wallet.Prelude.Keys.{eq_of_key}
use lior_paris_wallet.Orm.{Orm}
use lior_paris_wallet.Entities.{OutboxEvent}
use lior_paris_wallet.Result.{Exception}
use lior_paris_wallet.Outbox.{
  DomainJob, job_of, Queue, Publisher, is_pending, publish_all, publish_pending_events,
}
use lior_paris_wallet.Outbox.Delivery.{id_of}
use lior_paris_wallet.Outbox.Turn.{
  Turn, published, failed, has_id, mark, count, marked, counted, publish_pending_events-keeps,
  publish_rest, publish_event_outcome, poll_busy, poll_down, poll_idle, batch,
}

-- The row is as it was, and no job of it has been added since.
abbrev IsLeft : OutboxEvent → List DomainJob → List OutboxEvent → List DomainJob → Type 0
IsLeft r before rows jobs =
    Memᴰ r rows × ((j : DomainJob) → Memᴰ j jobs → j.outbox_id ≡ r.id → Memᴰ j before)

job_of-other :
    (r e : OutboxEvent) (before jobs : List DomainJob)
    → e.id ≢ r.id
    → ((j : DomainJob) → Memᴰ j jobs → j.outbox_id ≡ r.id → Memᴰ j before)
    → (j : DomainJob) → Memᴰ j (jobs ++ job_of e ∷ [])
    → j.outbox_id ≡ r.id
    → Memᴰ j before
unfolding job_of
job_of-other r e before jobs other old j m own = elim (mem-snoc jobs m) [
  | inl n ↦ old j n own
  | inr q ↦ absurd (other (sym (ap (λ (j : DomainJob). j.outbox_id) q) ∙ own))
]

Turn-IsLeft :
    (r e : OutboxEvent) (before : List DomainJob) (s s' : Publisher)
    → e.id ≢ r.id
    → Turn e s s'
    → IsLeft r before s.outbox s.domain_events
    → IsLeft r before s'.outbox s'.domain_events
Turn-IsLeft r e before s s' other turn (here, old) =
    let more = job_of-other r e before s.domain_events other old in
    let miss : (r.id == e.id) ≡ false = ground arith in
    let unmarked : (now : ℕ) → Memᴰ r (marked now e s.outbox) =
      λ now. let after = mem-set_where (has_id e) (mark now) s.outbox here in rw miss at after in
    let uncounted : Memᴰ r (counted e s.outbox) =
      (let after = mem-set_where (has_id e) count s.outbox here in rw miss at after) in
    elim turn [
      | published now rows jobs ↦ rw (rows, jobs) (unmarked now, more)
      | failed (inl rows) (inl jobs) ↦ rw (rows, jobs) (uncounted, old)
      | failed (inl rows) (inr jobs) ↦ rw (rows, jobs) (uncounted, more)
      | failed (inr rows) (inl jobs) ↦ rw (rows, jobs) (here, old)
      | failed (inr rows) (inr jobs) ↦ rw (rows, jobs) (here, more)
    ]

-- No row has had more than five failed attempts.
abbrev pub IsBounded : List OutboxEvent → Type 0
IsBounded rows = (b : OutboxEvent) → Memᴰ b rows → b.retry_count ≤ 5

-- A row with the event's id may fail once more.
abbrev HasAttempt : OutboxEvent → List OutboxEvent → Type 0
HasAttempt e rows = (b : OutboxEvent) → Memᴰ b rows → b.id ≡ e.id → b.retry_count < 5

-- After a turn, a row is one from before, with one more attempt at most, and none if it is of another
-- event.
Turn-row :
    (e : OutboxEvent) (s s' : Publisher)
    → Turn e s s'
    → (b : OutboxEvent) → Memᴰ b s'.outbox
    → (a : OutboxEvent) × Memᴰ a s.outbox
      × (b.id ≡ a.id)
      × ((b.retry_count ≡ a.retry_count) ⊎ ((a.id ≡ e.id) × (b.retry_count ≡ a.retry_count + 1)))
Turn-row e s s' (published now rows jobs) b m =
    let (a, n, q) = set_where-mem (has_id e) (mark now) s.outbox (rw rows at m) in
    elim (Bool-cases (a.id == e.id)) [
      | inl hit ↦
          let same : b ≡ mark now a = q ∙ rw hit refl in
          (
            a,
            n,
            ap (λ (x : OutboxEvent). x.id) same,
            inl (ap (λ (x : OutboxEvent). x.retry_count) same),
          )
      | inr miss ↦
          let same : b ≡ a = q ∙ rw miss refl in
          (
            a,
            n,
            ap (λ (x : OutboxEvent). x.id) same,
            inl (ap (λ (x : OutboxEvent). x.retry_count) same),
          )
    ]
Turn-row e s s' (failed (inl rows) jobs) b m =
    let (a, n, q) = set_where-mem (has_id e) count s.outbox (rw rows at m) in
    elim (Bool-cases (a.id == e.id)) [
      | inl hit ↦
          let same : b ≡ count a = q ∙ rw hit refl in
          (
            a,
            n,
            ap (λ (x : OutboxEvent). x.id) same,
            inr (ground (arith, hit), ap (λ (x : OutboxEvent). x.retry_count) same),
          )
      | inr miss ↦
          let same : b ≡ a = q ∙ rw miss refl in
          (
            a,
            n,
            ap (λ (x : OutboxEvent). x.id) same,
            inl (ap (λ (x : OutboxEvent). x.retry_count) same),
          )
    ]
Turn-row e s s' (failed (inr rows) jobs) b m = (b, rw rows at m, refl, inl refl)

module _ (orm : Orm) (queue : Queue) (fault : ℕ → Option Exception) where
  Turn-IsBounded :
      (e : OutboxEvent) (s s' : Publisher)
      → Turn e s s'
      → HasAttempt e s.outbox
      → IsBounded s.outbox
      → IsBounded s'.outbox
  Turn-IsBounded e s s' turn can bounded b m =
      let (a, n, same, how) = Turn-row e s s' turn b m in
      elim how [
        | inl q ↦ let le = bounded a n in omega (arith, q, le)
        | inr (own, q) ↦ let lt = can a n own in omega (arith, q, lt)
      ]

  Turn-HasAttempt :
      (e other : OutboxEvent) (s s' : Publisher)
      → Turn e s s'
      → other.id ≢ e.id
      → HasAttempt other s.outbox
      → HasAttempt other s'.outbox
  Turn-HasAttempt e other s s' turn apart can b m own =
      let (a, n, same, how) = Turn-row e s s' turn b m in
      let lt = can a n (sym same ∙ own) in
      elim how [
        | inl q ↦ omega (arith, q, lt)
        | inr (hit, q) ↦ absurd (apart (sym own ∙ same ∙ hit))
      ]

  publish_all-IsBounded :
      (events : List OutboxEvent) (s : Publisher)
      → HasUniqueKeys id_of events
      → ((e : OutboxEvent) → Memᴰ e events → HasAttempt e s.outbox)
      → IsBounded s.outbox
      → IsBounded (publish_all orm queue fault events s).1.outbox
  unfolding publish_all
  publish_all-IsBounded [] s unique can bounded = bounded
  publish_all-IsBounded (e ∷ events) s unique can bounded =
      let turn = publish_event_outcome orm queue fault e s in
      let after = Turn-IsBounded e s _ turn (can e (Memᴰ.head refl)) bounded in
      publish_rest orm queue fault (λ rows jobs. IsBounded rows) e events s _ refl after
        (publish_all-IsBounded events _ unique.1
          (λ other m. Turn-HasAttempt e other s _ turn (unique.0 other m) (can other (Memᴰ.tail m)))
          after)

  -- If ids are unique, no poll brings a row beyond five failed attempts, whatever fails and when.
  pub publish_pending_events-IsBounded :
      (s : Publisher)
      → HasUniqueKeys id_of s.outbox
      → IsBounded s.outbox
      → IsBounded (publish_pending_events orm queue fault s).1.outbox
  publish_pending_events-IsBounded s unique bounded = elim (Bool-cases s.processing) [
    | inl busy ↦ rw (poll_busy orm queue fault s busy) bounded
    | inr idle ↦ elim (Option-cases (fault s.clock)) [
      | inr (x, down) ↦ rw (poll_down orm queue fault s x idle down) bounded
      | inl up ↦ rw (poll_idle orm queue fault s idle up) (
          publish_all-IsBounded (batch orm queue fault s)
            (record s { processing = true; clock = suc s.clock })
            (orm.find-keys is_pending (λ e. e.created_at) 50 s.outbox id_of unique)
            (λ e m b n own.
              let (from, due) = orm.find-mem is_pending _ _ _ m in
              let one : b ≡ e = eq_of_key id_of s.outbox unique n from own in
              rw one (ground (arith, due)))
            bounded)
    ]
  ]

module _ (orm : Orm) (queue : Queue) (fault : ℕ → Option Exception) (s : Publisher) where
  -- If ids are unique, a poll leaves an event with five failed attempts or more as it is, and adds no
  -- job of it: such an event is never published.
  pub publish_pending_events-exhausted :
      (r : OutboxEvent)
      → HasUniqueKeys id_of s.outbox
      → Memᴰ r s.outbox
      → 5 ≤ r.retry_count
      → let s' = (publish_pending_events orm queue fault s).1 in
        Memᴰ r s'.outbox
        × ((j : DomainJob) → Memᴰ j s'.domain_events → j.outbox_id ≡ r.id → Memᴰ j s.domain_events)
  publish_pending_events-exhausted r unique m spent =
      publish_pending_events-keeps orm queue fault (IsLeft r s.domain_events) s
        (λ e from pending s' s'' turn kept.
          let other : e.id ≢ r.id = λ same.
            let one : e ≡ r = eq_of_key id_of s.outbox unique from m same in
            let due : is_pending r ≡ true = rw (sym one) pending in ground arith in
          Turn-IsLeft r e s.domain_events s' s'' other turn kept)
        (m, λ j n own. n)
