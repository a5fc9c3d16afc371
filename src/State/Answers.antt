-- ===== src/State/Answers.antt =====
-- service/state.py: exchanges, logins and acknowledgements.
use mock_amqp_server.Prelude.{
  ℕ, ◌≡◌, ◌↔◌, nat_eq, ap, refl, ◌∙◌, Bool, true, false, Option, none, some, List, [], ◌∷◌, arith,
  ◌==◌, ◌&&◌, ◌||◌, not, str_keys, nat_keys, str_eq_iff, if◌then◌else◌, Option-cases, nat_eq, ap,
  inl, inr,
}
use mock_amqp_server.Dict.{get, put, contains, get-put, eq_refl}
use mock_amqp_server.Python.{Str}
use mock_amqp_server.Python.Sets.{member, member-add}
use mock_amqp_server.State.{
  State, Exchange, is_password, check_credentials, declare_exchange, message_ack, message_nack,
}

abbrev new_exchange : Str → Exchange
new_exchange type = record { type = type; messages = [] }

abbrev pub type_of_exchange : Str → State → Option Str
type_of_exchange x s = elim (get x s.exchanges) [ none ↦ none | some e ↦ some e.type ]

declare_exchange-get :
    (x type y : Str) (s : State)
    → get y (declare_exchange x type s).1.exchanges ≡ (
        if x == y && not (contains x s.exchanges)
        then some (record { type = type; messages = [] })
        else get y s.exchanges)
unfolding declare_exchange
declare_exchange-get x type y s =
    ground (arith, get-put x y (new_exchange type) s.exchanges, str_eq_iff x y)

declare_exchange-new :
    (x type : Str) (s : State)
    → get x s.exchanges ≡ none
    → declare_exchange x type s
      ≡ (true, record s { exchanges = put x (new_exchange type) s.exchanges })
unfolding declare_exchange
declare_exchange-new x type s e = rw (e, declare_exchange) refl

declare_exchange-old :
    (x type : Str) (s : State) (old : Exchange)
    → get x s.exchanges ≡ some old
    → declare_exchange x type s ≡ (old.type == type, s)
unfolding declare_exchange
declare_exchange-old x type s old e = rw (e, declare_exchange) refl

declare_exchange-answer :
    (x type : Str) (s : State)
    → ((declare_exchange x type s).0 ≡ true)
      ↔ (type_of_exchange x (declare_exchange x type s).1 ≡ some type)
declare_exchange-answer x type s = elim (Option-cases (get x s.exchanges)) [
  | inl e ↦
      rw (declare_exchange-new x type s e, get-put, eq_refl x, type_of_exchange)
        (λ h. refl, λ h. refl)
  | inr (old, e) ↦
      rw (declare_exchange-old x type s old e, e, type_of_exchange)
        (
          λ h. ground (arith, h, str_eq_iff old.type type),
          λ h. ground (arith, h, str_eq_iff old.type type),
        )
]

declare_exchange-again :
    (x type : Str) (s : State)
    → (declare_exchange x type s).0 ≡ true
    → declare_exchange x type (declare_exchange x type s).1 ≡ (true, (declare_exchange x type s).1)
declare_exchange-again x type s h = elim (Option-cases (get x s.exchanges)) [
  | inl e ↦
      rw (declare_exchange-new x type s e)
        (declare_exchange-old x type _ (new_exchange type) (there e) ∙ rw (eq_refl type) refl)
  | inr (old, e) ↦ rw (declare_exchange-old x type s old e) (
      declare_exchange-old x type s old e ∙ rw (rw (declare_exchange-old x type s old e) at h) refl)
]
  where
    there :
        get x s.exchanges ≡ none
        → get x (put x (new_exchange type) s.exchanges) ≡ some (new_exchange type)
    there e = ground (arith, get-put x x (new_exchange type) s.exchanges, eq_refl x)

-- The first declaration of an exchange fixes its type: `declare_exchange` changes no exchange that
-- is there, adds the one that is not there with the given type and no messages, answers True if and
-- only if the exchange then has the given type, and after a True the same call answers True again
-- and changes nothing.
pub declare_exchange_lem :
    (x type : Str) (s : State)
    → ((y : Str)
        → get y (declare_exchange x type s).1.exchanges ≡ (
            if x == y && not (contains x s.exchanges)
            then some (record { type = type; messages = [] })
            else get y s.exchanges))
      × (((declare_exchange x type s).0 ≡ true)
          ↔ (type_of_exchange x (declare_exchange x type s).1 ≡ some type))
      × ((declare_exchange x type s).0 ≡ true
          → declare_exchange x type (declare_exchange x type s).1
            ≡ (true, (declare_exchange x type s).1))
declare_exchange_lem x type s = (
  λ y. declare_exchange-get x type y s,
  declare_exchange-answer x type s,
  declare_exchange-again x type s,
)

pub is_password_iff :
    (o : Option Str) (password : Str) → (is_password o password ≡ true) ↔ (o ≡ some password)
is_password_iff none password = (λ h. cc, λ h. cc)
is_password_iff (some expected) password = (
  λ h. ap some ((str_eq_iff expected password).0 h),
  λ h. ground (arith, h, str_eq_iff expected password),
)

-- `check_credentials` answers True if and only if the user is there with that password, records
-- its answer as the last attempt of that user and of no other, and touches no user, exchange,
-- queue or binding.
pub check_credentials_lem :
    (u p : Str) (s : State)
    → (((check_credentials u p s).0 ≡ true) ↔ (get u s.users ≡ some p))
      × ((v : Str)
          → get v (check_credentials u p s).1.authentication_tried_on ≡ (
              if u == v then some (check_credentials u p s).0 else get v s.authentication_tried_on))
      × ((check_credentials u p s).1 ≡ record s {
        authentication_tried_on = (check_credentials u p s).1.authentication_tried_on;
      })
unfolding check_credentials
check_credentials_lem u p s = (
  is_password_iff (get u s.users) p,
  λ v. get-put u v (is_password (get u s.users) p) s.authentication_tried_on,
  refl,
)

-- What a consumer says of a delivery.
pub data Settlement : Type 0 where
  ack : ℕ → Settlement
  nack : ℕ → Bool → Settlement

abbrev pub settle : List Settlement → State → State
settle [] s = s
settle (ack tag ∷ rest) s = settle rest (message_ack tag s)
settle (nack tag requeue ∷ rest) s = settle rest (message_nack tag requeue s)

abbrev pub acked : ℕ → List Settlement → Bool
acked t [] = false
acked t (ack tag ∷ rest) = nat_eq tag t || acked t rest
acked t (nack tag requeue ∷ rest) = acked t rest

abbrev pub nacked : Bool → ℕ → List Settlement → Bool
nacked wanted t [] = false
nacked wanted t (ack tag ∷ rest) = nacked wanted t rest
nacked wanted t (nack tag requeue ∷ rest) =
    (if requeue then wanted else not wanted) && nat_eq tag t || nacked wanted t rest

-- After any sequence of acks and nacks each of the three sets holds what it held and the tags of
-- its kind: the acknowledged ones, those to be requeued, and those refused for good.
pub settle_lem :
    (events : List Settlement) (t : ℕ) (s : State)
    → (member t (settle events s).message_acknowledged
        ≡ (acked t events || member t s.message_acknowledged))
      × (member t (settle events s).message_requeued
          ≡ (nacked true t events || member t s.message_requeued))
      × (member t (settle events s).message_not_acknowledged
          ≡ (nacked false t events || member t s.message_not_acknowledged))
unfolding message_ack message_nack
settle_lem [] t s = (refl, refl, refl)
settle_lem (ack tag ∷ rest) t s =
    let (a, b, c) = settle_lem rest t (message_ack tag s) in
    (ground (arith, a, member-add t tag s.message_acknowledged), b, c)
settle_lem (nack tag true ∷ rest) t s =
    let (a, b, c) = settle_lem rest t (message_nack tag true s) in
    (a, ground (arith, b, member-add t tag s.message_requeued), c)
settle_lem (nack tag false ∷ rest) t s =
    let (a, b, c) = settle_lem rest t (message_nack tag false s) in
    (a, b, ground (arith, c, member-add t tag s.message_not_acknowledged))
