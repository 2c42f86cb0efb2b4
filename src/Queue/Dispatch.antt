-- ===== src/Queue/Dispatch.antt =====
-- Which customer is put through to which operator, and what becomes of the others
-- (stasis/src/engine/queueManager.ts).
use callytics.Queue.{
  s_rem, Redis, member, s_add, s_pop, set_free, set_busy, set_waiting, connect_pair,
  connect_next_customer, on_customer_hangup, bridge_channels,
}
use callytics.Queue.Exclusive.{update-same}
use mathlib.Core.Path.{subst}
use callytics.Queue.Sets.{member-s_add}
use callytics.Prelude.{
  ℕ, String, ◌≡◌, refl, sym, ap, ◌∙◌, true, Option, none, some, List, [], ◌∷◌, arith, eqb,
  option-holds,
}

eqb-same : (n : ℕ) → eqb n n ≡ true
eqb-same n = ground arith

next-pair :
    (choice q op : ℕ) (free : List ℕ) (customer : String) (rest : List String) (r : Redis)
    → s_pop choice (r.operators q) ≡ some (op, free)
    → r.waiting q ≡ customer ∷ rest
    → connect_next_customer choice q r
      ≡ connect_pair q op customer (set_waiting q rest (set_free q free r))
unfolding connect_next_customer
next-pair choice q op free customer rest r popped head =
    ap
      (λ o. elim o as (λ _. Redis) [
        | none ↦ r
        | some (p, f) ↦ elim (r.waiting q) as (λ _. Redis) [
          | [] ↦ set_free q (s_add p f) r
          | c ∷ cs ↦ connect_pair q p c (set_waiting q cs (set_free q f r))
        ]
      ])
      popped
    ∙ ap
        (λ w. elim w as (λ _. Redis) [
          | [] ↦ set_free q (s_add op free) r
          | c ∷ cs ↦ connect_pair q op c (set_waiting q cs (set_free q free r))
        ])
        head

pair-is :
    (q op : ℕ) (customer : String) (r : Redis) (o : Option String)
    → r.operator_channel op ≡ o
    → connect_pair q op customer r ≡ (elim o [
      | none ↦ set_free q (s_add op (r.operators q)) r
      | some channel ↦ bridge_channels channel customer (set_busy q (s_add op (r.busy q)) r)
    ])
unfolding connect_pair
pair-is q op customer r o e =
    ap
      (λ x. elim x as (λ _. Redis) [
        | none ↦ set_free q (s_add op (r.operators q)) r
        | some channel ↦ bridge_channels channel customer (set_busy q (s_add op (r.busy q)) r)
      ])
      e

s_add-member : (op : ℕ) (xs : List ℕ) → member op (s_add op xs) ≡ true
s_add-member op xs = rw (member-s_add op op xs) (rw (eqb-same op) refl)

-- Where an operator of the queue is free and has a channel, the customer that has waited longest is
-- put through to the operator that is popped: the two channels are bridged, the customer leaves the
-- list and the others keep their order, and the operator is busy.
pub connect_next_customer-first :
    (choice q op : ℕ) (free : List ℕ) (channel customer : String) (rest : List String) (r : Redis)
    → s_pop choice (r.operators q) ≡ some (op, free)
    → r.waiting q ≡ customer ∷ rest
    → r.operator_channel op ≡ some channel
    → let x = connect_next_customer choice q r in
      (x.bridged ≡ (channel, customer) ∷ r.bridged)
      × (x.waiting q ≡ rest)
      × (x.operators q ≡ free)
      × (member op (x.busy q) ≡ true)
unfolding bridge_channels
connect_next_customer-first choice q op free channel customer rest r popped head has_channel =
    let y = set_waiting q rest (set_free q free r) in
    subst Served
      (sym (
        next-pair choice q op free customer rest r popped head
        ∙ pair-is q op customer y (some channel) has_channel))
      (
        refl,
        update-same r.waiting q rest,
        update-same r.operators q free,
        ap (member op) (update-same r.busy q (s_add op (r.busy q))) ∙ s_add-member op (r.busy q),
      )
  where
    Served : Redis → Type 0
    Served x =
        (x.bridged ≡ (channel, customer) ∷ r.bridged)
        × (x.waiting q ≡ rest)
        × (x.operators q ≡ free)
        × (member op (x.busy q) ≡ true)

-- Where the operator that is popped has no channel, the customer that has waited longest is taken
-- off the list all the same: it is neither bridged nor waiting, and the operator is free again.
pub connect_next_customer-drops :
    (choice q op : ℕ) (free : List ℕ) (customer : String) (rest : List String) (r : Redis)
    → s_pop choice (r.operators q) ≡ some (op, free)
    → r.waiting q ≡ customer ∷ rest
    → r.operator_channel op ≡ none
    → let x = connect_next_customer choice q r in
      (x.bridged ≡ r.bridged) × (x.waiting q ≡ rest) × (member op (x.operators q) ≡ true)
connect_next_customer-drops choice q op free customer rest r popped head no_channel =
    let y = set_waiting q rest (set_free q free r) in
    subst Dropped
      (sym (
        next-pair choice q op free customer rest r popped head
        ∙ pair-is q op customer y none no_channel))
      (
        refl,
        update-same r.waiting q rest,
        ap (member op) (update-same y.operators q (s_add op (y.operators q)))
            ∙ s_add-member op (y.operators q),
      )
  where
    Dropped : Redis → Type 0
    Dropped x = (x.bridged ≡ r.bridged) × (x.waiting q ≡ rest) × (member op (x.operators q) ≡ true)

next_silent :
    (choice q : ℕ) (x : Redis)
    → (connect_next_customer choice q x).customer_channel ≡ x.customer_channel
unfolding connect_next_customer connect_pair bridge_channels
next_silent choice q x =
    option-holds Silent (s_pop choice (x.operators q)) (λ _. refl)
      (λ (o, free) _. by_waiting o free (x.waiting q))
  where
    Silent : Redis → Type 0
    Silent y = y.customer_channel ≡ x.customer_channel

    by_waiting :
        (o : ℕ) (free : List ℕ) (w : List String)
        → Silent (elim w [
          | [] ↦ set_free q (s_add o free) x
          | customer ∷ rest ↦ connect_pair q o customer (set_waiting q rest (set_free q free x))
        ])
    by_waiting o free [] = refl
    by_waiting o free (customer ∷ rest) =
        option-holds Silent (x.operator_channel o) (λ _. refl) (λ c _. refl)

-- No call of `connectNextCustomer` or `onCustomerHangup` writes a `customer:<channel>:channel` key,
-- which `executeQueue` polls to learn that its caller was put through.
pub on_customer_hangup_silent :
    (choice op q : ℕ) (r : Redis)
    → ((connect_next_customer choice q r).customer_channel ≡ r.customer_channel)
      × ((on_customer_hangup choice op q r).customer_channel ≡ r.customer_channel)
unfolding on_customer_hangup
on_customer_hangup_silent choice op q r = (
  next_silent choice q r,
  next_silent choice q (set_free q (s_add op (r.operators q)) (set_busy q (s_rem op (r.busy q)) r)),
)
