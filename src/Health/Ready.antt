-- ===== src/Health/Ready.antt =====
-- `GrpcHealthChecker::wait_for_ready` of src/health.rs: the loop that polls a new instance.
-- Round `k` reads the clock as `elapsed k` and gets the answer `healthy k`; both are arguments.
-- The fuel bounds the rounds.
use tei_manager.Base.{
  ℕ, zero, suc, ◌+◌, ◌*◌, ◌/◌, ◌≤◌, ◌<◌, ◌≡◌, ◌≢◌, refl, Bool, true, false, arith, ltb,
  if◌then◌else◌,
}
use tei_manager.Instance.{InstanceStatus, TeiInstance, Runtime, update_cell, with_status}

pub data Waited : Type 0 where
  -- ready in that round
  ready : ℕ → Waited
  timed_out : ℕ → Waited
  out_of_fuel : Waited

-- Rounds enough for a timeout, at a poll interval.
abbrev pub enough_rounds : ℕ → ℕ → ℕ
enough_rounds timeout interval = suc (timeout / interval + 1)

module _ (elapsed : ℕ → ℕ) (healthy : ℕ → Bool) (timeout : ℕ) where
  unfoldable pub poll : ℕ → ℕ → Waited
  poll zero round = Waited.out_of_fuel
  poll (suc fuel) round =
      let rest = poll fuel (round + 1) in
      if ltb timeout (elapsed round)
      then Waited.timed_out round
      else (if healthy round then Waited.ready round else rest)

  poll_ends :
      (interval fuel round : ℕ)
      → ((k : ℕ) → k * interval ≤ elapsed k)
      → timeout < (round + fuel) * interval
      → poll (suc fuel) round ≢ Waited.out_of_fuel
  unfolding poll
  poll_ends interval zero round clock enough = ground (arith, clock round)
  poll_ends interval (suc fuel) round clock enough =
      ground (arith, poll_ends interval fuel (round + 1) clock (omega arith))

  -- What the loop's answer says of its round.
  abbrev pub IsAnswer : ℕ → Waited → Type 0
  IsAnswer round (Waited.ready k) = (round ≤ k) × (healthy k ≡ true) × (elapsed k ≤ timeout)
  IsAnswer round (Waited.timed_out k) = (round ≤ k) × (timeout < elapsed k)
  IsAnswer round Waited.out_of_fuel = Unit

  IsAnswer-mono : (round : ℕ) (w : Waited) → IsAnswer (round + 1) w → IsAnswer round w
  IsAnswer-mono round (Waited.ready k) h = ground arith
  IsAnswer-mono round (Waited.timed_out k) h = ground arith
  IsAnswer-mono round Waited.out_of_fuel h = tt

  poll-IsAnswer : (fuel round : ℕ) → IsAnswer round (poll fuel round)
  unfolding poll
  poll-IsAnswer zero round = tt
  poll-IsAnswer (suc fuel) round =
      let later = IsAnswer-mono round (poll fuel (round + 1)) (poll-IsAnswer fuel (round + 1)) in
      ground arith

  -- Earlier rounds got no healthy answer, and were in time.
  abbrev pub round_of : Waited → ℕ
  round_of (Waited.ready k) = k
  round_of (Waited.timed_out k) = k
  round_of Waited.out_of_fuel = 0

  -- Every round of the loop before the one in which it ends had no healthy answer, and was in
  -- time.
  pub poll_first :
      (fuel round j : ℕ)
      → round ≤ j
      → j < round_of (poll fuel round)
      → (healthy j ≡ false) × (elapsed j ≤ timeout)
  unfolding poll
  poll_first zero round j l u = absurd (omega arith)
  poll_first (suc fuel) round j l u = ground (arith, poll_first fuel (round + 1) j)

  module _ (interval : ℕ) (some_interval : 0 < interval)
      (clock : (k : ℕ) → k * interval ≤ elapsed k) where
    -- With a poll interval that is not zero, and a clock that gains at least that in each round,
    -- the loop ends: it reports the first round with a healthy answer if the time is not over by
    -- then, and else a round in which the time is over.
    pub poll_total :
        (poll (enough_rounds timeout interval) 0 ≢ Waited.out_of_fuel)
        × IsAnswer 0 (poll (enough_rounds timeout interval) 0)
    poll_total = (
      poll_ends interval (timeout / interval + 1) 0 clock (grind arith),
      poll-IsAnswer (enough_rounds timeout interval) 0,
    )

module _ {P : Type 0} where
  -- What `wait_for_ready` writes when it ends: a ready instance is set running.
  finish_wait : Waited → TeiInstance → Runtime P → Bool × Runtime P
  finish_wait (Waited.ready k) i r =
      (true, update_cell i.cell (with_status InstanceStatus.running) r)
  finish_wait (Waited.timed_out k) i r = (false, r)
  finish_wait Waited.out_of_fuel i r = (false, r)

  -- The task around it: an instance that did not become ready is marked failed.
  finish_task : Waited → TeiInstance → Runtime P → Bool × Runtime P
  unfolding finish_wait
  finish_task w i r =
      let (done, r') = finish_wait w i r in
      if done
      then (true, r')
      else (false, update_cell i.cell (with_status InstanceStatus.failed) r')

module _ (elapsed : ℕ → ℕ) (healthy : ℕ → Bool) (timeout fuel : ℕ) {P : Type 0} where
  -- `GrpcHealthChecker::wait_for_ready`.
  pub wait_for_ready : TeiInstance → Runtime P → Bool × Runtime P
  unfolding finish_wait
  wait_for_ready = finish_wait (poll elapsed healthy timeout fuel 0)

  -- The background task of `create_instance`, `start_instance` and `restore`.
  pub await_ready : TeiInstance → Runtime P → Bool × Runtime P
  unfolding finish_task
  await_ready = finish_task (poll elapsed healthy timeout fuel 0)

-- How the task ends, by the answer of the loop: with a healthy answer in time and the instance
-- running, or after the timeout with the instance failed.
abbrev pub TaskEnds :
    {P : Type 0}
    → (ℕ → ℕ)
    → (ℕ → Bool)
    → ℕ
    → Waited
    → TeiInstance
    → Runtime P
    → Bool × Runtime P
    → Type 0
TaskEnds elapsed healthy timeout (Waited.ready k) i r (done, r') =
    (done ≡ true)
    × (healthy k ≡ true)
    × (elapsed k ≤ timeout)
    × (r'.cells i.cell ≡ with_status InstanceStatus.running (r.cells i.cell))
TaskEnds elapsed healthy timeout (Waited.timed_out k) i r (done, r') =
    (done ≡ false)
    × (timeout < elapsed k)
    × (r'.cells i.cell ≡ with_status InstanceStatus.failed (r.cells i.cell))
TaskEnds elapsed healthy timeout Waited.out_of_fuel i r (done, r') = ⊥

module _ (elapsed : ℕ → ℕ) (healthy : ℕ → Bool) (timeout : ℕ) {P : Type 0} where
  finish_task-TaskEnds :
      (w : Waited) (i : TeiInstance) (r : Runtime P)
      → w ≢ Waited.out_of_fuel
      → IsAnswer elapsed healthy timeout 0 w
      → TaskEnds elapsed healthy timeout w i r (finish_task w i r)
  unfolding finish_task
  finish_task-TaskEnds (Waited.ready k) i r e h = ground arith
  finish_task-TaskEnds (Waited.timed_out k) i r e h = ground arith
  finish_task-TaskEnds Waited.out_of_fuel i r e h = e refl

  -- Where the clock gains at least a positive poll interval in each round, the wait always
  -- ends, and leaves the instance running or failed, as the loop was ready or timed out; it
  -- writes nothing else of it.
  pub await_ready_ends :
      (interval : ℕ) (i : TeiInstance) (r : Runtime P)
      → 0 < interval
      → ((k : ℕ) → k * interval ≤ elapsed k)
      → let rounds = enough_rounds timeout interval in
        TaskEnds elapsed healthy timeout
          (poll elapsed healthy timeout rounds 0)
          i
          r
          (await_ready elapsed healthy timeout rounds i r)
  unfolding await_ready
  await_ready_ends interval i r some_interval clock =
      let (ends, answer) = poll_total elapsed healthy timeout interval some_interval clock in
      finish_task-TaskEnds _ i r ends answer
