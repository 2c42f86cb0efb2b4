-- ===== src/Queue/Reachable.antt =====
-- The states that the operations of the call queues lead to (stasis/src/engine/queueManager.ts and
-- stasis/src/executors/queue.executor.ts).
use callytics.Queue.Exclusive.{
  IsExclusive, empty-IsExclusive, free-IsExclusive, sets-IsExclusive, release-IsExclusive,
  occupy-IsExclusive, connect_pair-IsExclusive, add-free, update-same,
}
use callytics.Queue.{
  connected_to, waits, Redis, empty, update, member, s_add, s_rem, s_pop, set_free, set_busy,
  set_waiting, login_operator, logout_operator, connect_pair, connect_next_customer,
  on_customer_hangup, bridge_channels, set_customer, join_waiting, leave_waiting, enter_queue,
  Entry,
}
use callytics.Queue.Sets.{
  distinct, member-s_rem, distinct-s_add, distinct-s_rem, s_pop-member, s_pop-distinct,
}
use mathlib.Core.Path.{subst}
use callytics.Prelude.{
  ℕ, String, ◌≡◌, refl, sym, ◌⊎◌, inl, inr, true, false, Option, none, some, List, [], ◌∷◌, arith,
  eqb, if◌then◌else◌, Bool-cases, or_else, option-holds,
}

-- An operator that is taken from the free ones is busy or free again afterwards.
pub connect_next_customer-IsExclusive :
    (choice q : ℕ) (r : Redis) → IsExclusive r → IsExclusive (connect_next_customer choice q r)
unfolding connect_next_customer
connect_next_customer-IsExclusive choice q r h =
    option-holds IsExclusive (s_pop choice (r.operators q)) (λ _. h)
      λ (op, free) e. popped op free e (r.waiting q)
  where
    popped :
        (op : ℕ) (free : List ℕ)
        → s_pop choice (r.operators q) ≡ some (op, free)
        → (w : List String)
        → IsExclusive (elim w [
          | [] ↦ set_free q (s_add op free) r
          | customer ∷ rest ↦ connect_pair q op customer (set_waiting q rest (set_free q free r))
        ])
    popped op free e w =
        let left = s_pop-distinct choice (r.operators q) free op e (h.once q) in
        let kept = λ (z : ℕ). s_pop-member choice (r.operators q) free op z e in
        let not_busy : member op (r.busy q) ≡ false = h.apart q op (rw (kept op) (ground arith)) in
        let apart =
          λ (z : ℕ) (m : member z free ≡ true). h.apart q z (rw (kept z) (rw m (ground arith))) in
        by_waiting w left.0 left.1 not_busy apart
      where
        by_waiting :
            (w : List String)
            → distinct free ≡ true
            → member op free ≡ false
            → member op (r.busy q) ≡ false
            → ((z : ℕ) → member z free ≡ true → member z (r.busy q) ≡ false)
            → IsExclusive (elim w [
              | [] ↦ set_free q (s_add op free) r
              | customer ∷ rest ↦
                  connect_pair q op customer (set_waiting q rest (set_free q free r))
            ])
        by_waiting [] once gone not_busy apart =
            free-IsExclusive r _ q (s_add op free) refl refl h (distinct-s_add op free once)
              (λ z. add-free op z free (r.busy q) not_busy (apart z))
        by_waiting (customer ∷ rest) once gone not_busy apart =
            connect_pair-IsExclusive q op customer _ (rw (update-same r.operators q free) gone)
              not_busy
              (free-IsExclusive r (set_waiting q rest (set_free q free r)) q free refl refl h once
                apart)

idle-IsExclusive :
    (op q : ℕ) (r : Redis) → IsExclusive r → IsExclusive (set_busy q (s_rem op (r.busy q)) r)
idle-IsExclusive op q r h = record {
  once = λ p. h.once p;
  apart = λ p z m. by_queue p z m (Bool-cases (eqb q p));
}
  where
    by_queue :
        (p z : ℕ)
        → member z (r.operators p) ≡ true
        → (eqb q p ≡ true) ⊎ (eqb q p ≡ false)
        → member z (if eqb q p then s_rem op (r.busy q) else r.busy p) ≡ false
    by_queue p z m (inl e) =
        let same : q ≡ p = ground (arith, e) in
        let there : member z (r.operators q) ≡ true =
          subst (λ k. member z (r.operators k) ≡ true) (sym same) m in
        rw (e, member-s_rem z op (r.busy q)) (ground (arith, h.apart q z there))
    by_queue p z m (inr e) = rw e (h.apart p z m)

-- The end of a call keeps free and busy operators apart.
pub on_customer_hangup-IsExclusive :
    (choice op q : ℕ) (r : Redis) → IsExclusive r → IsExclusive (on_customer_hangup choice op q r)
unfolding on_customer_hangup
on_customer_hangup-IsExclusive choice op q r h =
    let less = set_busy q (s_rem op (r.busy q)) r in
    connect_next_customer-IsExclusive choice q _ (
      release-IsExclusive less _ q op refl refl
        (rw (update-same r.busy q (s_rem op (r.busy q)))
          (rw (member-s_rem op op (r.busy q)) (ground arith)))
        (idle-IsExclusive op q r h))

pub logout_operator-IsExclusive :
    (op q : ℕ) (r : Redis) → IsExclusive r → IsExclusive (logout_operator op q r)
unfolding logout_operator
logout_operator-IsExclusive op q r h =
    sets-IsExclusive r _ q (s_rem op (r.operators q)) (s_rem op (r.busy q)) refl refl h
      (distinct-s_rem op (r.operators q) (h.once q))
      λ z m.
        rw (member-s_rem z op (r.busy q))
          (ground (arith, h.apart q z, m, member-s_rem z op (r.operators q)))

pub login_operator-IsExclusive :
    (q op : ℕ) (channel : String) (r : Redis)
    → member op (r.operators q) ≡ false
    → member op (r.busy q) ≡ false
    → IsExclusive r
    → IsExclusive (login_operator q op channel r)
unfolding login_operator bridge_channels set_customer
login_operator-IsExclusive q op channel r not_free not_busy h = by_waiting (r.waiting q)
  where
    by_waiting :
        (w : List String)
        → IsExclusive (
            let known = record r {
              operator_queue = update r.operator_queue op (some q);
              operator_channel = update r.operator_channel op (some channel);
            } in
            elim w [
              | [] ↦ set_free q (s_add op (r.operators q)) known
              | customer ∷ rest ↦ set_customer q customer channel (
                  set_busy q
                    (s_add op (r.busy q))
                    (bridge_channels channel customer (set_waiting q rest known)))
            ])
    by_waiting [] = release-IsExclusive r _ q op refl refl not_busy h
    by_waiting (customer ∷ rest) = occupy-IsExclusive r _ q op refl refl not_free h

-- The states that the operations lead to. An operator logs in where it is neither free nor busy.
pub data Reachable : Redis → Type 0 where
  start : Reachable empty
  logs_in :
      (q op : ℕ) (channel : String) (r : Redis)
      → member op (r.operators q) ≡ false
      → member op (r.busy q) ≡ false
      → Reachable r
      → Reachable (login_operator q op channel r)
  logs_out : (op q : ℕ) (r : Redis) → Reachable r → Reachable (logout_operator op q r)
  connects : (choice q : ℕ) (r : Redis) → Reachable r → Reachable (connect_next_customer choice q r)
  hangs_up :
      (choice op q : ℕ) (r : Redis) → Reachable r → Reachable (on_customer_hangup choice op q r)
  enters :
      (originate : ℕ → Option String) (choice q : ℕ) (customer : String) (r : Redis)
      → Reachable r
      → Reachable ((enter_queue originate choice q customer r).1)
  leaves :
      (q : ℕ) (customer : String) (r : Redis) → Reachable r → Reachable (leave_waiting q customer r)

enter_queue-IsExclusive :
    (originate : ℕ → Option String) (choice q : ℕ) (customer : String) (r : Redis)
    → IsExclusive r
    → IsExclusive ((enter_queue originate choice q customer r).1)
unfolding enter_queue join_waiting bridge_channels
enter_queue-IsExclusive originate choice q customer r h =
    option-holds Goal (s_pop choice (r.operators q))
      (λ _. record { once = λ p. h.once p; apart = λ p. h.apart p })
      λ (op, free) e. popped op free e
  where
    Goal : Entry × Redis → Type 0
    Goal x = IsExclusive (x.1)

    popped :
        (op : ℕ) (free : List ℕ)
        → s_pop choice (r.operators q) ≡ some (op, free)
        → Goal (elim (or_else (r.operator_channel op) (originate op)) [
          | none ↦ (waits, join_waiting q customer (set_free q (s_add op free) r))
          | some channel ↦ (
            connected_to op channel,
            bridge_channels channel customer (set_busy q (s_add op (r.busy q)) (set_free q free r)),
          )
        ])
    popped op free e =
        let left = s_pop-distinct choice (r.operators q) free op e (h.once q) in
        let kept = λ (z : ℕ). s_pop-member choice (r.operators q) free op z e in
        let not_busy : member op (r.busy q) ≡ false = h.apart q op (rw (kept op) (ground arith)) in
        let apart : (z : ℕ) → member z free ≡ true → member z (r.busy q) ≡ false =
          λ z m. h.apart q z (rw (kept z) (rw m (ground arith))) in
        option-holds Goal (or_else (r.operator_channel op) (originate op))
          (λ _.
            free-IsExclusive r _ q (s_add op free) refl refl h (distinct-s_add op free (left.0))
              (λ z. add-free op z free (r.busy q) not_busy (apart z)))
          (λ channel _.
            occupy-IsExclusive (set_free q free r) _ q op refl refl
              (rw (update-same r.operators q free) (left.1))
              (free-IsExclusive r (set_free q free r) q free refl refl h left.0 apart))

-- In every state that logins, logouts, hang-ups, and callers that enter or leave lead to, no
-- operator is listed twice as free in a queue, and none is free and busy in the same queue. An
-- operator logs in where it is neither.
pub reachable-IsExclusive : (r : Redis) → Reachable r → IsExclusive r
unfolding leave_waiting
reachable-IsExclusive _ start = empty-IsExclusive
reachable-IsExclusive _ (logs_in q op channel r nf nb h) =
    login_operator-IsExclusive q op channel r nf nb (reachable-IsExclusive r h)
reachable-IsExclusive _ (logs_out op q r h) =
    logout_operator-IsExclusive op q r (reachable-IsExclusive r h)
reachable-IsExclusive _ (connects choice q r h) =
    connect_next_customer-IsExclusive choice q r (reachable-IsExclusive r h)
reachable-IsExclusive _ (hangs_up choice op q r h) =
    on_customer_hangup-IsExclusive choice op q r (reachable-IsExclusive r h)
reachable-IsExclusive _ (enters originate choice q customer r h) =
    enter_queue-IsExclusive originate choice q customer r (reachable-IsExclusive r h)
reachable-IsExclusive _ (leaves q customer r h) =
    let was = reachable-IsExclusive r h in
    record { once = λ p. was.once p; apart = λ p. was.apart p }
