-- ===== src/State/Logins.antt =====
-- service/state.py: the wait for a login by `check_credentials`.
use mock_amqp_server.Prelude.{
  ℕ, zero, suc, ◌<◌, ◌≡◌, refl, ◌∙◌, Bool, Option, none, some, arith, str_keys, ap,
}
use mock_amqp_server.Dict.{get, get-put, eq_refl}
use mock_amqp_server.Python.{Str, Bytes, ok, err, wait_timeout}
use mock_amqp_server.Python.Texts.{encode}
use mock_amqp_server.Python.Utf8.{decode, IsText, decode-encode}
use mock_amqp_server.State.{State, check_credentials}
use mock_amqp_server.State.Wait.{wait_authentication_performed_on, logged}

module _ (name : Str) (username : Bytes) (decoded : decode username ≡ ok name) where
  look :
      (s : State) (r : Option Bool)
      → get name s.authentication_tried_on ≡ r
      → logged username s ≡ ok r
  look s r e = rw (decoded, logged) (rw e refl)

  absent-wait :
      (timeout : ℕ) (world : ℕ → State)
      → ((j : ℕ) → j < timeout → get name (world j).authentication_tried_on ≡ none)
      → wait_authentication_performed_on username timeout world ≡ err wait_timeout
  unfolding wait_authentication_performed_on
  absent-wait zero world h = refl
  absent-wait (suc timeout) world h =
      rw (look (world zero) none (h 0 (omega arith)), wait_authentication_performed_on)
        (absent-wait timeout (λ i. world (suc i)) (λ j lt. h (suc j) (omega arith)))

  first-wait :
      (timeout : ℕ) (world : ℕ → State) (i : ℕ) (done : Bool)
      → i < timeout
      → ((j : ℕ) → j < i → get name (world j).authentication_tried_on ≡ none)
      → get name (world i).authentication_tried_on ≡ some done
      → wait_authentication_performed_on username timeout world ≡ ok done
  unfolding wait_authentication_performed_on
  first-wait zero world i done lt before found = absurd (omega arith)
  first-wait (suc timeout) world zero done lt before found =
      rw (look (world zero) (some done) found, wait_authentication_performed_on) refl
  first-wait (suc timeout) world (suc i) done lt before found =
      rw (look (world zero) none (before 0 (omega arith)), wait_authentication_performed_on)
        (first-wait timeout (λ k. world (suc k)) i done (omega arith)
          (λ j less. before (suc j) (omega arith)) found)

recorded :
    (name password : Str) (s : State)
    → get name (check_credentials name password s).1.authentication_tried_on
      ≡ some (check_credentials name password s).0
unfolding check_credentials
recorded name password s =
    get-put name name (check_credentials name password s).0 s.authentication_tried_on
    ∙ rw (eq_refl name) refl

-- The inspector waits for a login under a name, which it gives as UTF-8. If the name has been tried
-- at one of the looks, and the first of these finds the state that `check_credentials` has left,
-- the answer is that of `check_credentials`. If it is tried at no look, WaitTimeout is raised.
pub wait_authentication_performed_on_lem :
    (name : Str) (username : Bytes) (timeout : ℕ) (world : ℕ → State)
    → IsText name
    → encode name ≡ ok username
    → ((i : ℕ) (password : Str) (s : State)
        → i < timeout
        → ((j : ℕ) → j < i → get name (world j).authentication_tried_on ≡ none)
        → world i ≡ (check_credentials name password s).1
        → wait_authentication_performed_on username timeout world
          ≡ ok (check_credentials name password s).0)
      × (((j : ℕ) → j < timeout → get name (world j).authentication_tried_on ≡ none)
          → wait_authentication_performed_on username timeout world ≡ err wait_timeout)
wait_authentication_performed_on_lem name username timeout world valid encoded = (
  λ i password s lt before e.
      first-wait name username (decode-encode name username valid encoded) timeout world i
        (check_credentials name password s).0 lt before
        (ap (λ (t : State). get name t.authentication_tried_on) e ∙ recorded name password s),
  absent-wait name username (decode-encode name username valid encoded) timeout world,
)
