-- ===== src/Http/Waits.antt =====
-- service/http_protocol.py: the answers to the waits for a message or a binding.
use mock_amqp_server.Prelude.{
  ℕ, ◌<◌, ◌≡◌, refl, Bool, true, false, str_keys, nat_keys, inl, inr, sym, ◌∙◌,
}
use mock_amqp_server.Python.{Str, Result, err, wait_timeout}
use mock_amqp_server.Python.Sets.{member}
use mock_amqp_server.Python.Decimals.{pos}
use mock_amqp_server.State.{State, bound_queues}
use mock_amqp_server.State.Wait.{AnswersBy, wait_lem}
use mock_amqp_server.Http.{
  H11, Clock, acknowledged, not_acknowledged, requeued, queue_bound, HttpSession,
  send_http_response_no_content, send_http_response_timeout,
}
use mock_amqp_server.Http.Futures.{outcome, on_get_done, default_timeout}

module _ {C : Type 0} ⦃h11 : H11 C⦄ ⦃clock : Clock⦄ (world : ℕ → State) (s : HttpSession C) where
  -- the answer to a wait that ends with `r`; `test` says whether what is waited for is there
  abbrev pub AnswersWhen : (State → Bool) → Result Bool → Type 0
  AnswersWhen test r =
      ((i : ℕ)
        → i < default_timeout
        → test (world i) ≡ true
        → on_get_done r s ≡ send_http_response_no_content s)
      × (((i : ℕ) → i < default_timeout → test (world i) ≡ false)
          → on_get_done r s ≡ send_http_response_timeout s)

  never_true :
      (test : State → Bool) (r : Result Bool)
      → AnswersBy test default_timeout world r
      → ((i : ℕ) → i < default_timeout → test (world i) ≡ false)
      → r ≡ err wait_timeout
  never_true test r h none_found = elim h.0 [
    | inl yes_found ↦
        let (i, less, found) = h.1.0 yes_found in
        let clash : true ≡ false = sym found ∙ none_found i less in cc
    | inr timed_out ↦ timed_out
  ]

  AnswersWhen-AnswersBy :
      (test : State → Bool) (r : Result Bool)
      → AnswersBy test default_timeout world r
      → AnswersWhen test r
  unfolding on_get_done
  AnswersWhen-AnswersBy test r h = (
    λ i less found. rw (h.1.1 (i, less, found)) refl,
    λ none_found. rw (never_true test r h none_found) refl,
  )

  -- The four waits that a GET starts for a tag, or for a binding, look at the state ten times. If
  -- at one of the looks the tag is in its set, or the queue in the set of the exchange, the
  -- inspector is answered 204, and if at none it is, 504, whatever the clients do in between.
  pub on_get_done-outcome :
      (tag : ℕ) (queue exchange : Str)
      → AnswersWhen
          (λ g. member tag g.message_acknowledged)
          (outcome (acknowledged (pos tag)) world)
        × AnswersWhen
            (λ g. member tag g.message_not_acknowledged)
            (outcome (not_acknowledged (pos tag)) world)
        × AnswersWhen (λ g. member tag g.message_requeued) (outcome (requeued (pos tag)) world)
        × AnswersWhen
            (λ g. member queue (bound_queues exchange g))
            (outcome (queue_bound queue exchange) world)
  unfolding outcome
  on_get_done-outcome tag queue exchange =
      let h = wait_lem tag default_timeout queue exchange world in
      (
        AnswersWhen-AnswersBy (λ g. member tag g.message_acknowledged)
            (outcome (acknowledged (pos tag)) world) h.0,
        AnswersWhen-AnswersBy (λ g. member tag g.message_not_acknowledged)
            (outcome (not_acknowledged (pos tag)) world) h.1,
        AnswersWhen-AnswersBy (λ g. member tag g.message_requeued)
            (outcome (requeued (pos tag)) world) h.2,
        AnswersWhen-AnswersBy (λ g. member queue (bound_queues exchange g))
            (outcome (queue_bound queue exchange) world) h.3,
      )
