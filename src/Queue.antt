-- ===== src/Queue.antt =====
-- stasis/src/engine/queueManager.ts: operators and waiting customers of the call queues, kept in
-- Redis. The keys `queue:<id>:waiting`, `:operators`, `:busy` and `:customer:<channel>:channel`, and
-- `operator:<id>:queue` and `:channel`, are fields. A call runs without another between its commands.
pub mod Sets
pub mod Exclusive
pub mod Reachable
pub mod Dispatch
mod Tests
use callytics.Prelude.{
  ℕ, zero, suc, ◌+◌, ◌-◌, ◌*◌, ◌/◌, ◌%◌, ◌≤◌, ◌<◌, String, ◌≡◌, refl, sym, ap, ◌∙◌, ◌≢◌, ◌↔◌, ◌⊎◌,
  inl, inr, Bool, true, false, not, ◌&&◌, ◌||◌, Option, none, some, List, [], ◌∷◌, ◌++◌, map, arith,
  ◌==◌, eq_iff, eq_refl, ltb, leb, eqb, if◌then◌else◌, Bool-cases, Option-cases, or_else, is_some,
  if-holds, option-holds, length, find?, filter, any, all, All, length-append, find?-test, In,
  find?-In, find?-none, In-filter, filter-In, All-In, codes, is_space, trim_start, trim_end, trim,
  drop_prefix, is_empty, is_digit, digits_value, show_ℕ, digits_value-show_ℕ, all_digits,
  show_ℕ-digits, trim-digits, show_ℕ-not_empty, concat, concat-cancel,
}

pub record Redis : Type 0 where
  pub waiting : ℕ → List String
  pub operators : ℕ → List ℕ
  pub busy : ℕ → List ℕ
  pub operator_queue : ℕ → Option ℕ
  pub operator_channel : ℕ → Option String
  pub customer_channel : ℕ → String → Option String
  -- The pairs of channels that were put on a bridge, operator first; the newest pair first.
  pub bridged : List (String × String)

abbrev pub empty : Redis
empty = record {
  waiting = λ q. [];
  operators = λ q. [];
  busy = λ q. [];
  operator_queue = λ o. none;
  operator_channel = λ o. none;
  customer_channel = λ q c. none;
  bridged = [];
}

abbrev pub update : {V : Type 0} → (ℕ → V) → ℕ → V → ℕ → V
update f k v j = if eqb k j then v else f j

-- SADD, SREM and SISMEMBER
unfoldable pub member : ℕ → List ℕ → Bool
member x xs = any xs (λ y. eqb y x)

pub s_add : ℕ → List ℕ → List ℕ
unfolding member
s_add x xs = if member x xs then xs else x ∷ xs

pub s_rem : ℕ → List ℕ → List ℕ
s_rem x xs = filter (λ y. not (eqb y x)) xs

-- SPOP takes any element: the i-th, or the last where there are fewer.
pub s_pop : ℕ → List ℕ → Option (ℕ × List ℕ)
s_pop i [] = none
s_pop zero (x ∷ xs) = some (x, xs)
s_pop (suc i) (x ∷ xs) = elim (s_pop i xs) [ none ↦ some (x, xs) | some (y, ys) ↦ some (y, x ∷ ys) ]

abbrev pub set_free : ℕ → List ℕ → Redis → Redis
set_free q xs r = record r { operators = update r.operators q xs }

abbrev pub set_busy : ℕ → List ℕ → Redis → Redis
set_busy q xs r = record r { busy = update r.busy q xs }

abbrev pub set_waiting : ℕ → List String → Redis → Redis
set_waiting q cs r = record r { waiting = update r.waiting q cs }

pub bridge_channels : String → String → Redis → Redis
bridge_channels operator customer r = record r { bridged = (operator, customer) ∷ r.bridged }

pub set_customer : ℕ → String → String → Redis → Redis
set_customer q customer channel r = record r {
  customer_channel =
      λ p c. if eqb q p && customer == c then some channel else r.customer_channel p c;
}

-- An operator logs in, and is put through to the first waiting customer if there is one.
unfoldable pub login_operator : ℕ → ℕ → String → Redis → Redis
unfolding bridge_channels set_customer
login_operator q op channel r =
    let known = record r {
      operator_queue = update r.operator_queue op (some q);
      operator_channel = update r.operator_channel op (some channel);
    } in
    elim (r.waiting q) [
      | [] ↦ set_free q (s_add op (r.operators q)) known
      | customer ∷ rest ↦ set_customer q customer channel (
          set_busy q (s_add op (r.busy q))
            (bridge_channels channel customer (set_waiting q rest known)))
    ]

unfoldable pub logout_operator : ℕ → ℕ → Redis → Redis
logout_operator op q r = record r {
  operators = update r.operators q (s_rem op (r.operators q));
  busy = update r.busy q (s_rem op (r.busy q));
  operator_queue = update r.operator_queue op none;
  operator_channel = update r.operator_channel op none;
}

-- A free operator and the first customer, both taken out of their sets.
pub connect_pair : ℕ → ℕ → String → Redis → Redis
unfolding bridge_channels
connect_pair q op customer r = elim (r.operator_channel op) [
  | none ↦ set_free q (s_add op (r.operators q)) r
  | some channel ↦ bridge_channels channel customer (set_busy q (s_add op (r.busy q)) r)
]

pub connect_next_customer : ℕ → ℕ → Redis → Redis
unfolding connect_pair
connect_next_customer choice q r = elim (s_pop choice (r.operators q)) [
  | none ↦ r
  | some (op, free) ↦ elim (r.waiting q) [
    | [] ↦ set_free q (s_add op free) r
    | customer ∷ rest ↦ connect_pair q op customer (set_waiting q rest (set_free q free r))
  ]
]

pub on_customer_hangup : ℕ → ℕ → ℕ → Redis → Redis
unfolding connect_next_customer
on_customer_hangup choice op q r =
    connect_next_customer choice q
      (set_free q (s_add op (r.operators q)) (set_busy q (s_rem op (r.busy q)) r))

-- stasis/src/executors/queue.executor.ts: a caller that finds no free operator waits, and leaves
-- the list when it hangs up or has waited too long (RPUSH, LREM 1).
pub join_waiting : ℕ → String → Redis → Redis
join_waiting q customer r = set_waiting q (r.waiting q ++ customer ∷ []) r

pub l_rem : String → List String → List String
l_rem c [] = []
l_rem c (x ∷ xs) = if x == c then xs else x ∷ l_rem c xs

pub leave_waiting : ℕ → String → Redis → Redis
leave_waiting q customer r = set_waiting q (l_rem customer (r.waiting q)) r

pub data Entry : Type 0 where
  connected_to : ℕ → String → Entry
  waits : Entry

-- The head of `executeQueue`: a free operator with a channel, or one that is called on the public
-- network (`originate`), takes the caller at once.
pub enter_queue : (ℕ → Option String) → ℕ → ℕ → String → Redis → Entry × Redis
unfolding join_waiting bridge_channels
enter_queue originate choice q customer r = elim (s_pop choice (r.operators q)) [
  | none ↦ (waits, join_waiting q customer r)
  | some (op, free) ↦ elim (or_else (r.operator_channel op) (originate op)) [
    | none ↦ (waits, join_waiting q customer (set_free q (s_add op free) r))
    | some channel ↦ (
      connected_to op channel,
      bridge_channels channel customer (set_busy q (s_add op (r.busy q)) (set_free q free r)),
    )
  ]
]
