-- ===== src/Queue/Exclusive.antt =====
-- Operators are free or busy, never both (stasis/src/engine/queueManager.ts).
use callytics.Queue.{Redis, empty, update, member, s_add, connect_pair, bridge_channels}
use callytics.Queue.Sets.{distinct, member-s_add, distinct-s_add}
use mathlib.Core.Path.{subst}
use callytics.Prelude.{
  ℕ, String, ◌≡◌, refl, sym, ap, ◌∙◌, ◌≢◌, ◌⊎◌, inl, inr, Bool, true, false, List, arith, eqb,
  if◌then◌else◌, Bool-cases, if-holds, option-holds,
}

-- In every queue an operator is listed once as free, and then not as busy.
pub record IsExclusive (r : Redis) : Type 0 where
  pub once : (q : ℕ) → distinct (r.operators q) ≡ true
  pub apart : (q op : ℕ) → member op (r.operators q) ≡ true → member op (r.busy q) ≡ false

pub empty-IsExclusive : IsExclusive empty
unfolding member
empty-IsExclusive = record { once = λ q. refl; apart = λ q op h. refl }

-- The sets of one queue are new, and those of the others stay.
pub sets-IsExclusive :
    (r x : Redis) (q : ℕ) (free busy : List ℕ)
    → x.operators ≡ update r.operators q free
    → x.busy ≡ update r.busy q busy
    → IsExclusive r
    → distinct free ≡ true
    → ((op : ℕ) → member op free ≡ true → member op busy ≡ false)
    → IsExclusive x
sets-IsExclusive r x q free busy ef eb h once apart = record {
  once = λ p. rw ef (if-holds (λ xs. distinct xs ≡ true) (eqb q p) (λ _. once) (λ _. h.once p));
  apart = λ p op m. rw eb (by_queue (eqb q p) p op (apart op) (h.apart p op) (rw ef at m));
}
  where
    by_queue :
        (b : Bool) (p op : ℕ)
        → (member op free ≡ true → member op busy ≡ false)
        → (member op (r.operators p) ≡ true → member op (r.busy p) ≡ false)
        → member op (if b then free else r.operators p) ≡ true
        → member op (if b then busy else r.busy p) ≡ false
    by_queue true p op new old m = new m
    by_queue false p op new old m = old m

-- Only the free operators of one queue are new.
pub free-IsExclusive :
    (r x : Redis) (q : ℕ) (free : List ℕ)
    → x.operators ≡ update r.operators q free
    → x.busy ≡ r.busy
    → IsExclusive r
    → distinct free ≡ true
    → ((op : ℕ) → member op free ≡ true → member op (r.busy q) ≡ false)
    → IsExclusive x
free-IsExclusive r x q free ef eb h once apart = record {
  once = λ p. rw ef (if-holds (λ xs. distinct xs ≡ true) (eqb q p) (λ _. once) (λ _. h.once p));
  apart = λ p op m. rw eb (by_queue p op (Bool-cases (eqb q p)) (rw ef at m));
}
  where
    by_queue :
        (p op : ℕ)
        → (eqb q p ≡ true) ⊎ (eqb q p ≡ false)
        → member op (if eqb q p then free else r.operators p) ≡ true
        → member op (r.busy p) ≡ false
    by_queue p op (inl e) m =
        let same : q ≡ p = ground (arith, e) in
        subst (λ k. member op (r.busy k) ≡ false) same (apart op (rw e at m))
    by_queue p op (inr e) m = h.apart p op (rw e at m)

-- An operator that is free may be added where it is not busy.
pub add-free :
    (op z : ℕ) (free busy : List ℕ)
    → member op busy ≡ false
    → (member z free ≡ true → member z busy ≡ false)
    → member z (s_add op free) ≡ true
    → member z busy ≡ false
add-free op z free busy absent old m = elim (Bool-cases (eqb op z)) [
  | inl e ↦ let same : op ≡ z = ground (arith, e) in subst (λ k. member k busy ≡ false) same absent
  | inr e ↦ old (rw (member-s_add z op free, e) at m)
]

-- An operator may be added to the busy ones where it is not free.
add-busy :
    (op z : ℕ) (free busy : List ℕ)
    → member op free ≡ false
    → (member z free ≡ true → member z busy ≡ false)
    → member z free ≡ true
    → member z (s_add op busy) ≡ false
add-busy op z free busy absent old m = elim (Bool-cases (eqb op z)) [
  | inl e ↦
      let same : op ≡ z = ground (arith, e) in
      absurd (true≢false (sym m ∙ ap (λ k. member k free) (sym same) ∙ absent))
  | inr e ↦ rw (member-s_add z op busy, e) (old m)
]
  where
    true≢false : true ≢ false
    true≢false h = cc

-- Adding to one queue's free operators one that is not busy in it.
pub release-IsExclusive :
    (r x : Redis) (q op : ℕ)
    → x.operators ≡ update r.operators q (s_add op (r.operators q))
    → x.busy ≡ r.busy
    → member op (r.busy q) ≡ false
    → IsExclusive r
    → IsExclusive x
release-IsExclusive r x q op ef eb absent h =
    free-IsExclusive r x q (s_add op (r.operators q)) ef eb h
      (distinct-s_add op (r.operators q) (h.once q))
      (λ z. add-free op z (r.operators q) (r.busy q) absent (h.apart q z))

-- Adding to one queue's busy operators one that is not free in it.
pub occupy-IsExclusive :
    (r x : Redis) (q op : ℕ)
    → x.operators ≡ r.operators
    → x.busy ≡ update r.busy q (s_add op (r.busy q))
    → member op (r.operators q) ≡ false
    → IsExclusive r
    → IsExclusive x
occupy-IsExclusive r x q op ef eb absent h = record {
  once = λ p. rw ef (h.once p);
  apart = λ p z m. rw eb (by_queue p z (Bool-cases (eqb q p)) (rw ef at m));
}
  where
    by_queue :
        (p z : ℕ)
        → (eqb q p ≡ true) ⊎ (eqb q p ≡ false)
        → member z (r.operators p) ≡ true
        → member z (if eqb q p then s_add op (r.busy q) else r.busy p) ≡ false
    by_queue p z (inl e) m =
        let same : q ≡ p = ground (arith, e) in
        rw e (
          add-busy op z (r.operators q) (r.busy q) absent (h.apart q z)
            (subst (λ k. member z (r.operators k) ≡ true) (sym same) m))
    by_queue p z (inr e) m = rw e (h.apart p z m)

pub connect_pair-IsExclusive :
    (q op : ℕ) (customer : String) (r : Redis)
    → member op (r.operators q) ≡ false
    → member op (r.busy q) ≡ false
    → IsExclusive r
    → IsExclusive (connect_pair q op customer r)
unfolding connect_pair bridge_channels
connect_pair-IsExclusive q op customer r not_free not_busy h =
    option-holds IsExclusive (r.operator_channel op)
      (λ _. release-IsExclusive r _ q op refl refl not_busy h)
      (λ channel _. occupy-IsExclusive r _ q op refl refl not_free h)

pub update-same : {V : Type 0} (f : ℕ → V) (q : ℕ) (v : V) → update f q v q ≡ v
update-same f q v = elim (Bool-cases (eqb q q)) [
  | inl e ↦ rw e refl
  | inr e ↦ absurd (ground (arith, e))
]
