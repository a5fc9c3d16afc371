-- ===== src/State/Invariant.antt =====
-- service/state.py: an invariant that ties the dictionaries of the broker together.
use mock_amqp_server.Prelude.{
  ◌≤◌, ◌≡◌, true, false, [], arith, ◌==◌, str_keys, str_eq, ◌&&◌, str_eq_iff, ◌||◌, if◌then◌else◌,
  Bool-cases, inl, inr,
}
use mock_amqp_server.Dict.{get, put, contains, get-put, contains-put}
use mock_amqp_server.Python.{Str}
use mock_amqp_server.Python.Sets.{Runtime, add, member, occurrences, member-add, occurrences-add}
use mock_amqp_server.State.{
  State, Exchange, Queue, init, check_credentials, declare_exchange, bind_queue, declare_queue,
  bound_queues, bound_with,
}

pub record WellFormed (s : State) : Type 0 where
  pub default_exchange : contains [] s.exchanges ≡ true
  pub bound_exchange :
      (x : Str) → contains x s.queues_bound_exchanges ≡ true → contains x s.exchanges ≡ true
  pub bound_queue : (x q : Str) → member q (bound_queues x s) ≡ true → contains q s.queues ≡ true
  pub bound_once : (x q : Str) → occurrences q (bound_queues x s) ≤ 1
  pub default_binding : (q : Str) → contains q s.queues ≡ true → member q (bound_queues [] s) ≡ true

module _ ⦃runtime : Runtime⦄ where
  pub init-WellFormed : WellFormed init
  unfolding init get member occurrences str_eq
  init-WellFormed = record {
    default_exchange = ground arith;
    bound_exchange = λ x h. ground arith;
    bound_queue = λ x q h. ground arith;
    bound_once = λ x q. ground arith;
    default_binding = λ q h. ground arith;
  }

-- A binding adds the queue to the set of its exchange, if both are there, and changes no other set.
bound_queues-bind_queue :
    (q x y : Str) (s : State)
    → bound_queues y (bind_queue q x s).1 ≡ (
        if contains x s.exchanges && (contains q s.queues && x == y)
        then add q (bound_queues y s)
        else bound_queues y s)
unfolding bind_queue add member
bound_queues-bind_queue q x y s = ground (
  arith,
  get-put x y (bound_with q (get x s.queues_bound_exchanges)) s.queues_bound_exchanges,
  str_eq_iff x y,
)

keys-bind_queue :
    (q x y : Str) (s : State)
    → contains y (bind_queue q x s).1.queues_bound_exchanges ≡ (
        contains x s.exchanges && (contains q s.queues && x == y)
        || contains y s.queues_bound_exchanges)
unfolding bind_queue
keys-bind_queue q x y s = ground (
  arith,
  contains-put x y (bound_with q (get x s.queues_bound_exchanges)) s.queues_bound_exchanges,
)

queues-bind_queue : (q x : Str) (s : State) → (bind_queue q x s).1.queues ≡ s.queues
unfolding bind_queue
queues-bind_queue q x s = ground arith

exchanges-bind_queue : (q x : Str) (s : State) → (bind_queue q x s).1.exchanges ≡ s.exchanges
unfolding bind_queue
exchanges-bind_queue q x s = ground arith

declare_queue-old :
    (q : Str) (s : State) → contains q s.queues ≡ true → declare_queue q s ≡ ((true, 0, 0), s)
unfolding declare_queue
declare_queue-old q s h = rw h

abbrev empty_queue : Queue
empty_queue = record { messages = []; consumers = [] }

abbrev with_queue : Str → State → State
with_queue q s = record s { queues = put q empty_queue s.queues }

declare_queue-new :
    (q : Str) (s : State)
    → contains q s.queues ≡ false
    → (declare_queue q s).1 ≡ (bind_queue q [] (with_queue q s)).1
unfolding declare_queue
declare_queue-new q s h = rw h

module _ {s : State} (w : WellFormed s) where
  pub check_credentials-WellFormed : (u p : Str) → WellFormed (check_credentials u p s).1
  unfolding check_credentials
  check_credentials-WellFormed u p = record {
    default_exchange = w.default_exchange;
    bound_exchange = w.bound_exchange;
    bound_queue = w.bound_queue;
    bound_once = w.bound_once;
    default_binding = w.default_binding;
  }

  pub bind_queue-WellFormed : (q x : Str) → WellFormed (bind_queue q x s).1
  bind_queue-WellFormed q x = record {
    default_exchange = unfold bind_queue in ground (arith, w.default_exchange);
    bound_exchange = λ y h.
        unfold bind_queue in
        ground (
          arith,
          w.bound_exchange y,
          get-put x y (bound_with q (get x s.queues_bound_exchanges)) s.queues_bound_exchanges,
          str_eq_iff x y,
        );
    bound_queue = λ y p h. rw (queues-bind_queue q x s) (
        ground (
          arith,
          bound_queues-bind_queue q x y s,
          member-add p q (bound_queues y s),
          w.bound_queue y p,
          str_eq_iff q p,
        ));
    bound_once = λ y p. ground (
      arith,
      bound_queues-bind_queue q x y s,
      occurrences-add p q (bound_queues y s),
      w.bound_once y p,
    );
    default_binding = λ p h. ground (
      arith,
      bound_queues-bind_queue q x [] s,
      queues-bind_queue q x s,
      member-add p q (bound_queues [] s),
      w.default_binding p,
    );
  }

  pub declare_exchange-WellFormed : (x type : Str) → WellFormed (declare_exchange x type s).1
  unfolding declare_exchange
  declare_exchange-WellFormed x type = record {
    default_exchange = ground (arith, w.default_exchange, grown []);
    bound_exchange = λ y h. ground (arith, w.bound_exchange y, grown y);
    bound_queue = λ y q h. ground (arith, w.bound_queue y q);
    bound_once = λ y q. ground (arith, w.bound_once y q);
    default_binding = λ q h. ground (arith, w.default_binding q);
  }
    where
      new : Exchange
      new = record { type = type; messages = [] }

      grown : (y : Str) → contains y (put x new s.exchanges) ≡ (x == y || contains y s.exchanges)
      grown y = contains-put x y new s.exchanges

  declare_queue-WellFormed_new :
      (q : Str) → contains q s.queues ≡ false → WellFormed (bind_queue q [] (with_queue q s)).1
  declare_queue-WellFormed_new q new = record {
    default_exchange = rw (exchanges-bind_queue q [] t) w.default_exchange;
    bound_exchange = λ y h.
        rw (exchanges-bind_queue q [] t)
          (ground (arith, keys-bind_queue q [] y t, w.bound_exchange y, str_eq_iff [] y, h));
    bound_queue = λ y p h. ground (
      arith,
      queues-bind_queue q [] t,
      bound_queues-bind_queue q [] y t,
      member-add p q (bound_queues y s),
      w.bound_queue y p,
      grown p,
      str_eq_iff q p,
    );
    bound_once = λ y p. ground (
      arith,
      bound_queues-bind_queue q [] y t,
      occurrences-add p q (bound_queues y s),
      w.bound_once y p,
    );
    default_binding = λ p h. ground (
      arith,
      queues-bind_queue q [] t,
      bound_queues-bind_queue q [] [] t,
      member-add p q (bound_queues [] s),
      w.default_binding p,
      w.default_exchange,
      grown p,
      grown q,
      str_eq_iff q p,
      str_eq_iff q q,
      str_eq_iff [] [],
    );
  }
    where
      t : State
      t = with_queue q s

      grown : (p : Str) → contains p t.queues ≡ (q == p || contains p s.queues)
      grown p = contains-put q p empty_queue s.queues

  pub declare_queue-WellFormed : (q : Str) → WellFormed (declare_queue q s).1
  declare_queue-WellFormed q = elim (Bool-cases (contains q s.queues)) [
    | inl old ↦ rw (declare_queue-old q s old) w
    | inr new ↦ rw (declare_queue-new q s new) (declare_queue-WellFormed_new q new)
  ]
