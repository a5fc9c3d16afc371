-- ===== src/Http/Futures.antt =====
-- service/http_protocol.py: the coroutines that a GET waits for, and the callback `_on_get_done`.
use mock_amqp_server.Prelude.{ℕ, Bool, true, false, List, [], ◌∷◌, ◌++◌, str_keys, if◌then◌else◌}
use mock_amqp_server.Python.{
  Bytes, Error, Result, ok, err, value_error, wait_timeout, Exec, raise, lift, modify, ◌>>=◌,
}
use mock_amqp_server.Python.Texts.{split, item_at}
use mock_amqp_server.Python.Utf8.{decode}
use mock_amqp_server.Python.Decimals.{ℤ, pos, negsuc, int_of}
use mock_amqp_server.State.{State}
use mock_amqp_server.State.Wait.{
  wait, wait_message_acknowledged, wait_message_not_acknowledged, wait_message_requeued,
  wait_queue_bound, wait_authentication_performed_on,
}
use mock_amqp_server.Http.{
  H11, Clock, Wait, authentication, acknowledged, not_acknowledged, requeued, queue_bound,
  HttpSession, send_http_response_no_content, send_http_response_forbidden,
  send_http_response_timeout,
}

-- `target.split(b'/', maxsplit=n)[i]`
abbrev pub segment : ℕ → ℕ → Bytes → Result Bytes
segment n i target = item_at i (split 47 n target)

-- `_, _, queue, exchange = parts`
abbrev pub four_parts : List Bytes → Result (Bytes × Bytes)
four_parts (a ∷ b ∷ queue ∷ exchange ∷ []) = ok (queue, exchange)
four_parts parts = err value_error

-- the parameter `timeout` of the coroutines
abbrev pub default_timeout : ℕ
default_timeout = 10

-- No negative number is a delivery tag in a set.
abbrev pub wait_tag : (ℕ → ℕ → (ℕ → State) → Result Bool) → ℤ → ℕ → (ℕ → State) → Result Bool
wait_tag wait_number (pos tag) timeout world = wait_number tag timeout world
wait_tag wait_number (negsuc n) timeout world = wait (λ s. false) timeout world

-- what the coroutine returns or raises
unfoldable pub outcome : Wait → (ℕ → State) → Result Bool
unfolding wait_authentication_performed_on wait_message_acknowledged wait_message_not_acknowledged
    wait_message_requeued wait_queue_bound
outcome (authentication username) world =
    wait_authentication_performed_on username default_timeout world
outcome (acknowledged tag) world = wait_tag wait_message_acknowledged tag default_timeout world
outcome (not_acknowledged tag) world =
    wait_tag wait_message_not_acknowledged tag default_timeout world
outcome (requeued tag) world = wait_tag wait_message_requeued tag default_timeout world
outcome (queue_bound queue exchange) world = wait_queue_bound queue exchange default_timeout world

-- `except WaitTimeout`
abbrev pub is_wait_timeout : Error → Bool
is_wait_timeout wait_timeout = true
is_wait_timeout e = false

module _ {C : Type 0} ⦃h11 : H11 C⦄ ⦃clock : Clock⦄ where
  -- `_on_get_done`, with what `future.result()` gives
  unfoldable pub on_get_done : Result Bool → Exec (HttpSession C) (Unit {0})
  unfolding send_http_response_no_content send_http_response_forbidden send_http_response_timeout
  on_get_done (ok false) = send_http_response_forbidden
  on_get_done (ok true) = send_http_response_no_content
  on_get_done (err e) = if is_wait_timeout e then send_http_response_timeout else raise e

  -- `asyncio.ensure_future(…)`, whose callback is `_on_get_done`
  abbrev pub ensure_future : Wait → Exec (HttpSession C) (Unit {0})
  ensure_future wait = modify (λ s. record s { futures = s.futures ++ (wait ∷ []) })

  -- `int(delivery_tag.decode('utf-8'))` of a target, and the coroutine for it
  unfoldable pub on_get_tag : (ℤ → Wait) → Bytes → Exec (HttpSession C) (Unit {0})
  on_get_tag coroutine target = do
    delivery_tag ← lift (segment 2 2 target)
    digits ← lift (decode delivery_tag)
    tag ← lift (int_of digits)
    ensure_future (coroutine tag)

  unfoldable pub on_get_bound : Bytes → Exec (HttpSession C) (Unit {0})
  on_get_bound target = do
    parts ← lift (four_parts (split 47 3 target))
    queue ← lift (decode parts.0)
    exchange ← lift (decode parts.1)
    ensure_future (queue_bound queue exchange)
