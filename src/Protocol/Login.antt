-- ===== src/Protocol/Login.antt =====
-- service/protocol.py: the login with the mechanism PLAIN.
use mock_amqp_server.Prelude.{
  ℕ, suc, ◌≡◌, ◌≢◌, refl, ◌∙◌, ap, Bool, true, false, some, [], ◌∷◌, ◌++◌, All, nat_eq, str_keys,
  str_eq, Bool-cases, inl, inr,
}
use mock_amqp_server.Dict.{get, put}
use mock_amqp_server.Python.{Str, Result, ok, text, pure, ◌>>◌}
use mock_amqp_server.Python.Texts.{split}
use mock_amqp_server.Serialization.{Codec}
use mock_amqp_server.Method.{Method, StartOk, start_ok}
use mock_amqp_server.Frame.{Frame, method}
use mock_amqp_server.State.{is_password, check_credentials}
use mock_amqp_server.State.Answers.{is_password_iff}
use mock_amqp_server.Sender.Connection.{send_connection_tune}
use mock_amqp_server.Protocol.{Session, ConnectionState, on_transport}
use mock_amqp_server.Protocol.Connections.{
  on_start_ok, check_start_ok, credentials_of, set_parser_state,
}
use mock_amqp_server.Protocol.Greeting.{closed}

-- A text without NUL, which separates the parts of a response.
abbrev pub HasNoNul : Str → Type 0
HasNoNul = All (λ c. nat_eq c 0 ≡ false)

split-rest : (n : ℕ) (s : Str) → HasNoNul s → split 0 (suc n) s ≡ s ∷ []
unfolding split
split-rest n [] h = refl
split-rest n (c ∷ s) h = rw (split, h.0, split-rest n s h.1) refl

split-first : (n : ℕ) (u s : Str) → HasNoNul u → split 0 (suc n) (u ++ (0 ∷ s)) ≡ u ∷ split 0 n s
unfolding split
split-first n [] s h = refl
split-first n (c ∷ u) s h = rw (split, h.0, split-first n u s h.1) refl

-- `'\0' + username + '\0' + password`
abbrev pub plain_response : Str → Str → Str
plain_response u p = 0 ∷ (u ++ (0 ∷ p))

split-plain :
    (u p : Str) → HasNoNul u → HasNoNul p → split 0 3 (plain_response u p) ≡ [] ∷ u ∷ p ∷ []
unfolding split
split-plain u p hu hp = rw (split-first 1 u p hu, split-rest 0 p hp) refl

-- The attempt is on record.
abbrev pub logged : Str → Bool → Session → Session
logged u answer s = record s {
  global_state = record s.global_state {
    authentication_tried_on = put u answer s.global_state.authentication_tried_on;
  };
}

module _ ⦃codec : Codec⦄ where
  check_start_ok-plain :
      (m : Method) (p : StartOk) (u pw : Str) (s : Session)
      → m.properties ≡ start_ok p
      → p.mechanism ≡ text "PLAIN"
      → p.response ≡ plain_response u pw
      → HasNoNul u
      → HasNoNul pw
      → check_start_ok (method m) s ≡ (
        ok (is_password (get u s.global_state.users) pw),
        logged u (is_password (get u s.global_state.users) pw) s,
      )
  unfolding check_start_ok credentials_of check_credentials str_eq
  check_start_ok-plain m p u pw s e mechanism response hu hp =
      rw (e, mechanism, response, split-plain u pw hu hp) refl

  on_start_ok-good :
      (f : Frame) (u : Str) (s : Session)
      → check_start_ok f s ≡ (ok true, logged u true s)
      → on_start_ok f s
        ≡ (do
          on_transport send_connection_tune
          set_parser_state ConnectionState.waiting_tune_ok
          pure false)
            (logged u true s)
  unfolding on_start_ok
  on_start_ok-good f u s e = rw e refl

  on_start_ok-bad :
      (f : Frame) (u : Str) (s : Session)
      → check_start_ok f s ≡ (ok false, logged u false s)
      → on_start_ok f s ≡ (ok false, record (logged u false s) { transport = closed s.transport })
  unfolding on_start_ok
  on_start_ok-bad f u s e = rw e refl

  -- A `start-ok` with the mechanism PLAIN, whose response names a user and a password without NUL:
  -- if the broker has the user with that password, `tune` is sent and `tune-ok` awaited, and if not,
  -- the transport is closed and the connection's state kept. Either way the attempt is recorded with
  -- its outcome, and the loop stops until more bytes come.
  pub on_start_ok-plain :
      (m : Method) (p : StartOk) (u pw : Str) (s : Session)
      → m.properties ≡ start_ok p
      → p.mechanism ≡ text "PLAIN"
      → p.response ≡ plain_response u pw
      → HasNoNul u
      → HasNoNul pw
      → (get u s.global_state.users ≡ some pw
          → on_start_ok (method m) s
            ≡ (do
              on_transport send_connection_tune
              set_parser_state ConnectionState.waiting_tune_ok
              pure false)
                (logged u true s))
        × (get u s.global_state.users ≢ some pw
            → on_start_ok (method m) s
              ≡ (ok false, record (logged u false s) { transport = closed s.transport }))
  on_start_ok-plain m p u pw s e mechanism response hu hp = (
    λ known.
        on_start_ok-good (method m) u s
          (checked ∙ ap answered ((is_password_iff (get u s.global_state.users) pw).1 known)),
    λ unknown. on_start_ok-bad (method m) u s (checked ∙ ap answered (refused unknown)),
  )
    where
      answered : Bool → Result Bool × Session
      answered b = (ok b, logged u b s)

      checked : check_start_ok (method m) s ≡ answered (is_password (get u s.global_state.users) pw)
      checked = check_start_ok-plain m p u pw s e mechanism response hu hp

      refused :
          get u s.global_state.users ≢ some pw → is_password (get u s.global_state.users) pw ≡ false
      refused unknown = elim (Bool-cases (is_password (get u s.global_state.users) pw)) [
        | inl h ↦ absurd (unknown ((is_password_iff (get u s.global_state.users) pw).0 h))
        | inr h ↦ h
      ]
