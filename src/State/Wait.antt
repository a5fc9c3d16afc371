-- ===== src/State/Wait.antt =====
-- service/state.py: the coroutines that wait for a client. `world i` is the broker's state when the
-- coroutine looks for the i-th time; `asyncio.sleep(1)` passes between two looks.
use mock_amqp_server.Prelude.{
  ℕ, zero, suc, ◌<◌, ◌≡◌, ◌↔◌, refl, Bool, true, Option, none, some, arith, str_keys, nat_keys,
  if◌then◌else◌, Bool-cases, inl, inr, ◌⊎◌,
}
use mock_amqp_server.Dict.{get}
use mock_amqp_server.Python.{Str, Bytes, Result, ok, err, wait_timeout}
use mock_amqp_server.Python.Utf8.{decode}
use mock_amqp_server.Python.Sets.{member}
use mock_amqp_server.State.{State, bound_queues}

-- `for _ in range(timeout): if test: return True; await asyncio.sleep(1)`, then `raise WaitTimeout`
unfoldable pub wait : (State → Bool) → ℕ → (ℕ → State) → Result Bool
wait test zero world = err wait_timeout
wait test (suc timeout) world =
    let rest = wait test timeout (λ i. world (suc i)) in if test (world zero) then ok true else rest

unfoldable pub wait_message_acknowledged : ℕ → ℕ → (ℕ → State) → Result Bool
unfolding wait
wait_message_acknowledged delivery_tag timeout world =
    wait (λ s. member delivery_tag s.message_acknowledged) timeout world

unfoldable pub wait_message_not_acknowledged : ℕ → ℕ → (ℕ → State) → Result Bool
unfolding wait
wait_message_not_acknowledged delivery_tag timeout world =
    wait (λ s. member delivery_tag s.message_not_acknowledged) timeout world

unfoldable pub wait_message_requeued : ℕ → ℕ → (ℕ → State) → Result Bool
unfolding wait
wait_message_requeued delivery_tag timeout world =
    wait (λ s. member delivery_tag s.message_requeued) timeout world

unfoldable pub wait_queue_bound : Str → Str → ℕ → (ℕ → State) → Result Bool
unfolding wait
wait_queue_bound queue exchange timeout world =
    wait (λ s. member queue (bound_queues exchange s)) timeout world

-- the look of `wait_authentication_performed_on`; `decode` is called in each round
abbrev pub logged : Bytes → State → Result (Option Bool)
logged username s = elim (decode username) [
  | err e ↦ err e
  | ok decoded_username ↦ ok (get decoded_username s.authentication_tried_on)
]

unfoldable pub wait_authentication_performed_on : Bytes → ℕ → (ℕ → State) → Result Bool
wait_authentication_performed_on username zero world = err wait_timeout
wait_authentication_performed_on username (suc timeout) world =
    let rest = wait_authentication_performed_on username timeout (λ i. world (suc i)) in
    elim (logged username (world zero)) [
      | err e ↦ err e
      | ok (some done) ↦ ok done
      | ok none ↦ rest
    ]

wait-found :
    (test : State → Bool) (timeout : ℕ) (world : ℕ → State)
    → wait test timeout world ≡ ok true
    → (i : ℕ) × (i < timeout) × (test (world i) ≡ true)
unfolding wait
wait-found test zero world h = cc
wait-found test (suc timeout) world h = elim (Bool-cases (test (world zero))) [
  | inl e ↦ (zero, ground arith, e)
  | inr e ↦
      let (i, lt, found) = wait-found test timeout (λ i. world (suc i)) (rw e at h) in
      (suc i, ground arith, found)
]

wait-finds :
    (test : State → Bool) (timeout : ℕ) (world : ℕ → State) (i : ℕ)
    → i < timeout
    → test (world i) ≡ true
    → wait test timeout world ≡ ok true
unfolding wait
wait-finds test zero world i lt found = absurd (omega arith)
wait-finds test (suc timeout) world zero lt found = rw found refl
wait-finds test (suc timeout) world (suc i) lt found =
    ground (arith, wait-finds test timeout (λ k. world (suc k)) i (omega arith) found)

wait-answers :
    (test : State → Bool) (timeout : ℕ) (world : ℕ → State)
    → (wait test timeout world ≡ ok true) ⊎ (wait test timeout world ≡ err wait_timeout)
unfolding wait
wait-answers test zero world = inr refl
wait-answers test (suc timeout) world = elim (Bool-cases (test (world zero))) [
  | inl e ↦ rw e (inl refl)
  | inr e ↦ rw e (wait-answers test timeout (λ i. world (suc i)))
]

-- `r` is True if the condition holds at one of the looks, and a timeout otherwise.
abbrev pub AnswersBy : (State → Bool) → ℕ → (ℕ → State) → Result Bool → Type 0
AnswersBy test timeout world r =
    ((r ≡ ok true) ⊎ (r ≡ err wait_timeout))
    × ((r ≡ ok true) ↔ ((i : ℕ) × (i < timeout) × (test (world i) ≡ true)))

wait-AnswersBy :
    (test : State → Bool) (timeout : ℕ) (world : ℕ → State)
    → AnswersBy test timeout world (wait test timeout world)
wait-AnswersBy test timeout world = (
  wait-answers test timeout world,
  (wait-found test timeout world, λ h. wait-finds test timeout world h.0 h.1 h.2),
)

-- Each of the four coroutines looks at most `timeout` times. It answers True if and only if at one
-- of these looks the tag is in its set, or the queue in the set of the exchange, and raises
-- WaitTimeout otherwise, whatever the other tasks do to the state between the looks.
pub wait_lem :
    (tag timeout : ℕ) (queue exchange : Str) (world : ℕ → State)
    → AnswersBy
        (λ s. member tag s.message_acknowledged)
        timeout
        world
        (wait_message_acknowledged tag timeout world)
      × AnswersBy
          (λ s. member tag s.message_not_acknowledged)
          timeout
          world
          (wait_message_not_acknowledged tag timeout world)
      × AnswersBy
          (λ s. member tag s.message_requeued)
          timeout
          world
          (wait_message_requeued tag timeout world)
      × AnswersBy
          (λ s. member queue (bound_queues exchange s))
          timeout
          world
          (wait_queue_bound queue exchange timeout world)
unfolding wait_message_acknowledged wait_message_not_acknowledged wait_message_requeued
    wait_queue_bound
wait_lem tag timeout queue exchange world = (
  wait-AnswersBy (λ s. member tag s.message_acknowledged) timeout world,
  wait-AnswersBy (λ s. member tag s.message_not_acknowledged) timeout world,
  wait-AnswersBy (λ s. member tag s.message_requeued) timeout world,
  wait-AnswersBy (λ s. member queue (bound_queues exchange s)) timeout world,
)
