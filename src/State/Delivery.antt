-- ===== src/State/Delivery.antt =====
-- service/state.py: `store_message`.
use mock_amqp_server.Prelude.{
  ℕ, zero, suc, ◌≤◌, ◌≡◌, refl, Bool, true, false, none, some, List, [], ◌∷◌, ◌++◌, arith,
  append-nil, append_assoc, ◌==◌, str_keys, str_eq, str_eq_iff, ◌∙◌, Option-cases, Bool-cases, inl,
  inr, sym, ap, if◌then◌else◌,
}
use mock_amqp_server.Dict.{get, put, contains, get-put, contains-put_same}
use mock_amqp_server.Python.{Str, Result, ok, err}
use mock_amqp_server.Python.Sets.{
  Runtime, member, occurrences, occurrences-member, occurrences-absent,
}
use mock_amqp_server.Serialization.{Value}
use mock_amqp_server.State.{
  State, Message, Exchange, Queue, append_to_queues, append_to_exchange, bound_queues,
  store_message, finish,
}
use mock_amqp_server.State.Invariant.{WellFormed}

abbrev pub messages_in_queue : Str → State → List Message
messages_in_queue q s = elim (get q s.queues) [ none ↦ [] | some queue ↦ queue.messages ]

abbrev pub messages_in_exchange : Str → State → List Message
messages_in_exchange x s = elim (get x s.exchanges) [
  | none ↦ []
  | some exchange ↦ exchange.messages
]

copies : ℕ → Message → List Message
copies zero m = []
copies (suc n) m = m ∷ copies n m

abbrev append_to : Message → Str → Queue → State → State
append_to m q queue s = record s {
  queues = put q (record queue { messages = queue.messages ++ (m ∷ []) }) s.queues;
}

messages-append_to :
    (m : Message) (q p : Str) (queue : Queue) (s : State)
    → get q s.queues ≡ some queue
    → messages_in_queue p (append_to m q queue s)
      ≡ messages_in_queue p s ++ (if q == p then m ∷ [] else [])
messages-append_to m q p queue s h = ground (
  arith,
  get-put q p (record queue { messages = queue.messages ++ (m ∷ []) }) s.queues,
  str_eq_iff q p,
  append-nil (messages_in_queue p s),
)

-- The loop over names of queues that are all there: nothing is raised, and each queue gets the
-- message as often as its name occurs.
record Delivers (m : Message) (names : List Str) (s : State) (out : Result (Unit {0}) × State)
    : Type 0 where
  returns : out.0 ≡ ok tt
  each :
      (p : Str)
      → messages_in_queue p out.1 ≡ messages_in_queue p s ++ copies (occurrences p names) m
  exchanges : out.1.exchanges ≡ s.exchanges

append_to_queues_step :
    (m : Message) (q : Str) (names : List Str) (queue : Queue) (s : State)
    → get q s.queues ≡ some queue
    → append_to_queues m (q ∷ names) s ≡ append_to_queues m names (append_to m q queue s)
unfolding append_to_queues
append_to_queues_step m q names queue s e = rw (e, append_to_queues)

copies_first :
    (m : Message) (q p : Str) (names : List Str) (old : List Message)
    → (old ++ (if q == p then m ∷ [] else [])) ++ copies (occurrences p names) m
      ≡ old ++ copies (occurrences p (q ∷ names)) m
unfolding copies occurrences
copies_first m q p names old = elim (Bool-cases (str_eq q p)) [
  | inl e ↦ rw e (append_assoc old (m ∷ []) _)
  | inr e ↦ rw (e, append-nil)
]

append_to_queues-Delivers :
    (m : Message) (names : List Str) (s : State)
    → ((q : Str) → member q names ≡ true → contains q s.queues ≡ true)
    → Delivers m names s (append_to_queues m names s)
append_to_queues-Delivers m [] s h =
    unfold append_to_queues copies occurrences in
    record { returns = refl; each = λ p. sym (append-nil _); exchanges = refl }
append_to_queues-Delivers m (q ∷ names) s h = elim (Option-cases (get q s.queues)) [
  | inl e ↦ absurd (missing e)
  | inr (queue, e) ↦
      let rest = append_to_queues-Delivers m names (append_to m q queue s) (still_there queue e) in
      rw (append_to_queues_step m q names queue s e) record {
        returns = rest.returns;
        each = λ p.
            rest.each p
            ∙ ap (λ (l : List Message). l ++ copies (occurrences p names) m)
                (messages-append_to m q p queue s e)
            ∙ copies_first m q p names (messages_in_queue p s);
        exchanges = rest.exchanges;
      }
]
  where
    missing : get q s.queues ≡ none → ⊥
    missing e = unfold member in ground (arith, h q, str_eq_iff q q)

    still_there :
        (queue : Queue)
        → get q s.queues ≡ some queue
        → (p : Str) → member p names ≡ true
        → contains p (append_to m q queue s).queues ≡ true
    still_there queue e p hp =
        contains-put_same q p _ queue s.queues e ∙ h p (unfold member in ground (arith, hp))

finish-ok :
    (answer : Bool) (out : Result (Unit {0}) × State)
    → out.0 ≡ ok tt
    → finish answer out ≡ (ok answer, out.1)
finish-ok answer (ok u, s) e = refl
finish-ok answer (err x, s) e = cc

copies_once :
    (m : Message) (n : ℕ) (b : Bool)
    → (if b then 1 else 0) ≤ n
    → n ≤ 1
    → (b ≡ false → n ≡ 0)
    → copies n m ≡ (if b then m ∷ [] else [])
unfolding copies
copies_once m zero b lo hi absent = ground arith
copies_once m (suc zero) b lo hi absent = ground (arith, absent)
copies_once m (suc (suc n)) b lo hi absent = absurd (omega arith)

pub messages-append_to_exchange :
    (m : Message) (x y : Str) (exchange : Exchange) (s : State)
    → get x s.exchanges ≡ some exchange
    → messages_in_exchange y (append_to_exchange x exchange m s)
      ≡ messages_in_exchange y s ++ (if x == y then m ∷ [] else [])
messages-append_to_exchange m x y exchange s h = ground (
  arith,
  get-put x y (record exchange { messages = exchange.messages ++ (m ∷ []) }) s.exchanges,
  str_eq_iff x y,
  append-nil (messages_in_exchange y s),
)

-- A name that `iterate` yields is a name of the set.
module _ ⦃runtime : Runtime⦄ where
  member-iterate :
      (q : Str) (names : List Str) → member q (runtime.iterate names) ≡ true → member q names ≡ true
  member-iterate q names h = ground (
    arith,
    occurrences-member q (runtime.iterate names),
    occurrences-absent q names,
    runtime.iterate_same names q,
  )

  once :
      (m : Message) (p : Str) (names : List Str)
      → occurrences p names ≤ 1
      → copies (occurrences p (runtime.iterate names)) m ≡ (if member p names then m ∷ [] else [])
  once m p names h = rw (runtime.iterate_same names p) (
      copies_once m (occurrences p names) (member p names) (occurrences-member p names) h
        (occurrences-absent p names))

  store_message_step :
      (x : Str) (headers body : Value) (s : State) (exchange : Exchange)
      → get x s.exchanges ≡ some exchange
      → store_message x headers body s ≡ (
          let m : Message = record { headers = headers; body = body } in
          let stored = append_to_exchange x exchange m s in
          finish true (append_to_queues m (runtime.iterate (bound_queues x s)) stored))
  unfolding store_message
  store_message_step x headers body s exchange e = rw (e, store_message)

  abbrev pub Delivered : Str → Value → Value → State → Type 0
  Delivered x headers body s =
      ((store_message x headers body s).0 ≡ ok true)
      × ((p : Str)
          → messages_in_queue p (store_message x headers body s).1
            ≡ messages_in_queue p s
              ++ (if member p (bound_queues x s)
                  then record { headers = headers; body = body } ∷ []
                  else []))
      × ((y : Str)
          → messages_in_exchange y (store_message x headers body s).1
            ≡ messages_in_exchange y s
              ++ (if x == y then record { headers = headers; body = body } ∷ [] else []))

  -- On a state that is well formed, `store_message` into an exchange that is there answers True
  -- without an exception. It appends the message to the exchange's messages and to those of each
  -- queue that is bound to the exchange, once, whatever the order in which Python walks the set,
  -- and leaves the messages of all other queues and all other exchanges as they were.
  pub store_message-delivers :
      (x : Str) (headers body : Value) (s : State)
      → WellFormed s
      → contains x s.exchanges ≡ true
      → Delivered x headers body s
  store_message-delivers x headers body s w h = elim (Option-cases (get x s.exchanges)) [
    | inl e ↦ absurd (ground arith)
    | inr (exchange, e) ↦
        let m : Message = record { headers = headers; body = body } in
        let stored = append_to_exchange x exchange m s in
        let names = runtime.iterate (bound_queues x s) in
        let d =
          append_to_queues-Delivers m names stored
            (λ q hq. w.bound_queue x q (member-iterate q (bound_queues x s) hq)) in
        rw
          (
            store_message_step x headers body s exchange e,
            finish-ok true (append_to_queues m names stored) d.returns,
          )
          (
            refl,
            λ p.
                d.each p
                ∙ ap (λ (l : List Message). messages_in_queue p s ++ l)
                    (once m p (bound_queues x s) (w.bound_once x p)),
            λ y.
                rw (d.exchanges, messages_in_exchange)
                  (messages-append_to_exchange m x y exchange s e),
          )
  ]
