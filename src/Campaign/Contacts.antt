-- ===== src/Campaign/Contacts.antt =====
-- Where each contact of a campaign is (stasis/src/campaign-executor.ts), by its id.
use callytics.Campaign.Loops.{
  Loops, Turn, enters_loop, dials, leaves_loop, dialled_call, dial_refused, call_ends, flow_runs,
  timer_fires, stops, Runs, stays, goes_on, begin,
}
use callytics.Campaign.Counts.{next_contact-some}
use callytics.Session.{lookup, insert}
use callytics.Campaign.{
  CampaignContact, ActiveCall, CampaignRuntime, CampaignRecord, CallOutcome, answered, no_answer,
  busy, failed, Message, dialing, dial_failed, contact_ended, stats, campaign_completed,
  campaign_cancelled, start_campaign, dial_contact, retry_fires, stop_campaign, mark_flow_ran,
  take_call, end_call, count_outcome, determine_outcome, should_retry, publish, publish_stats,
}
use mathlib.Core.Path.{subst}
use callytics.Prelude.{
  ℕ, suc, ◌+◌, String, ◌≡◌, refl, sym, ap, ◌∙◌, inl, inr, Bool, true, false, not, ◌&&◌, Option,
  none, some, List, [], ◌∷◌, ◌++◌, arith, ◌==◌, leb, eqb, if◌then◌else◌, Bool-cases, if-holds,
  length,
}

-- How often an id stands in a list of contacts, and in one of calls.
abbrev pub times : ℕ → List CampaignContact → ℕ
times i [] = 0
times i (c ∷ cs) = if eqb c.id i then suc (times i cs) else times i cs

abbrev pub calls_of : ℕ → List (String × ActiveCall) → ℕ
calls_of i [] = 0
calls_of i ((key, call) ∷ calls) =
    if eqb call.contact.id i then suc (calls_of i calls) else calls_of i calls

-- The messages that tell the backend that it is over with a contact: its call has failed to start,
-- or has ended without a retry.
abbrev pub concludes : ℕ → Message → Bool
concludes i (dialing j) = false
concludes i (dial_failed j) = eqb j i
concludes i (contact_ended j outcome retry) = eqb j i && not retry
concludes i (stats d a f) = false
concludes i (campaign_completed j) = false
concludes i (campaign_cancelled j) = false

abbrev pub concluded : ℕ → List Message → ℕ
concluded i [] = 0
concluded i (m ∷ ms) = if concludes i m then suc (concluded i ms) else concluded i ms

abbrev pub places : ℕ → Loops → ℕ
places i s =
    times i s.runtime.queue
    + times i s.dialled
    + calls_of i s.runtime.active_by_channel
    + times i s.runtime.timers
    + concluded i s.runtime.published

module _ (i : ℕ) where
  times-append : (xs ys : List CampaignContact) → times i (xs ++ ys) ≡ times i xs + times i ys
  times-append [] ys = omega arith
  times-append (x ∷ xs) ys = ground (arith, times-append xs ys)

  times-middle :
      (x : CampaignContact) (before after whole : List CampaignContact)
      → whole ≡ before ++ x ∷ after
      → times i whole ≡ times i (x ∷ []) + times i (before ++ after)
  times-middle x before after whole h =
      ap (times i) h ∙ times-append before (x ∷ after) ∙ ground (arith, times-append before after)

  calls-insert :
      (id : String) (c : ActiveCall) (m : List (String × ActiveCall))
      → lookup id m ≡ none
      → calls_of i (insert id c m) ≡ calls_of i m + times i (c.contact ∷ [])
  unfolding lookup insert
  calls-insert id c [] h = ground arith
  calls-insert id c ((key, d) ∷ m) h = ground (arith, h, calls-insert id c m)

  calls-insert_same :
      (id : String) (c d : ActiveCall) (m : List (String × ActiveCall))
      → lookup id m ≡ some d
      → c.contact ≡ d.contact
      → calls_of i (insert id c m) ≡ calls_of i m
  unfolding lookup insert
  calls-insert_same id c d [] h e = cc
  calls-insert_same id c d ((key, x) ∷ m) h e = elim (Bool-cases (key == id)) [
    | inl t ↦
        let found : some x ≡ some d = rw t at h in
        let same : x ≡ d = cc in
        let ids : c.contact.id ≡ x.contact.id =
          ap (λ (y : CampaignContact). y.id) e ∙ ap (λ (y : ActiveCall). y.contact.id) (sym same) in
        rw t (ap (λ n. if eqb n i then suc (calls_of i m) else calls_of i m) ids)
    | inr f ↦ ground (arith, f, calls-insert_same id c d m (rw f at h) e)
  ]

  calls-take_call :
      (id : String) (m left : List (String × ActiveCall)) (c : ActiveCall)
      → take_call id m ≡ some (c, left)
      → calls_of i m ≡ calls_of i left + times i (c.contact ∷ [])
  unfolding take_call
  calls-take_call id [] left c h = cc
  calls-take_call id ((key, d) ∷ m) left c h =
      by_test (key == id) (take_call id m) (λ rest x. calls-take_call id m rest x) h
    where
      by_test :
          (b : Bool) (o : Option (ActiveCall × List (String × ActiveCall)))
          → ((rest : List (String × ActiveCall)) (x : ActiveCall)
              → o ≡ some (x, rest)
              → calls_of i m ≡ calls_of i rest + times i (x.contact ∷ []))
          → (if b
              then some (d, m)
              else elim o as (λ _. Option (ActiveCall × List (String × ActiveCall))) [
                | none ↦ none
                | some (found, rest) ↦ some (found, (key, d) ∷ rest)
              ])
            ≡ some (c, left)
          → calls_of i ((key, d) ∷ m) ≡ calls_of i left + times i (c.contact ∷ [])
      by_test true o rec e =
          let same : d ≡ c = cc in
          let rest : m ≡ left = cc in
          subst
            (λ (x : ActiveCall).
              calls_of i ((key, d) ∷ m) ≡ calls_of i left + times i (x.contact ∷ []))
            same
            (subst (λ l. calls_of i ((key, d) ∷ m) ≡ calls_of i l + times i (d.contact ∷ [])) rest
              (ground arith))
      by_test false none rec e = absurd (cc)
      by_test false (some (found, rest)) rec e =
          let same : found ≡ c = cc in
          let shape : ((key, d) ∷ rest) ≡ left = cc in
          subst
            (λ (x : ActiveCall).
              calls_of i ((key, d) ∷ m) ≡ calls_of i left + times i (x.contact ∷ []))
            same
            (subst (λ l. calls_of i ((key, d) ∷ m) ≡ calls_of i l + times i (found.contact ∷ []))
              shape (ground (arith, rec rest found refl)))

  -- What `places` counts of a runtime.
  abbrev held : CampaignRuntime → ℕ
  held r =
      times i r.queue + calls_of i r.active_by_channel + times i r.timers + concluded i r.published

  abbrev ended :
      CampaignRuntime → ActiveCall → CallOutcome → List (String × ActiveCall) → CampaignRuntime
  ended r call outcome left = publish_stats (
      publish (contact_ended call.contact.id outcome (should_retry r call outcome))
        (count_outcome call outcome (record r { active_by_channel = left })))

  ended-held :
      (r : CampaignRuntime) (call : ActiveCall) (outcome : CallOutcome)
      (left : List (String × ActiveCall))
      → calls_of i r.active_by_channel ≡ calls_of i left + times i (call.contact ∷ [])
      → held (ended r call outcome left) ≡ held r
  unfolding count_outcome
  ended-held r call answered left e = ground (arith, e)
  ended-held r call no_answer left e =
      elim (Bool-cases (leb call.attempt_number r.campaign.max_retries)) [
        | inl t ↦ ground (arith, e, t)
        | inr f ↦ ground (arith, e, f)
      ]
  ended-held r call busy left e =
      elim (Bool-cases (leb call.attempt_number r.campaign.max_retries)) [
        | inl t ↦ ground (arith, e, t)
        | inr f ↦ ground (arith, e, f)
      ]
  ended-held r call failed left e = ground (arith, e)

  -- A call that ends is answered, retried later or given up.
  end_call-held :
      (id cause_text : String) (r x : CampaignRuntime)
      → end_call id cause_text r ≡ some x
      → held x ≡ held r
  unfolding end_call
  end_call-held id cause_text r x h =
      by_taken (if r.registered then take_call id r.active_by_channel else none)
        (λ call left. taken r.registered call left) h
    where
      taken :
          (b : Bool) (call : ActiveCall) (left : List (String × ActiveCall))
          → (if b then take_call id r.active_by_channel else none) ≡ some (call, left)
          → calls_of i r.active_by_channel ≡ calls_of i left + times i (call.contact ∷ [])
      taken true call left e = calls-take_call id r.active_by_channel left call e
      taken false call left e = absurd (cc)

      by_taken :
          (o : Option (ActiveCall × List (String × ActiveCall)))
          → ((call : ActiveCall) (left : List (String × ActiveCall))
              → o ≡ some (call, left)
              → calls_of i r.active_by_channel ≡ calls_of i left + times i (call.contact ∷ []))
          → (elim o as (λ _. Option CampaignRuntime) [
            | none ↦ none
            | some (call, left) ↦ some (ended r call (determine_outcome call cause_text) left)
          ])
            ≡ some x
          → held x ≡ held r
      by_taken none fewer e = absurd (cc)
      by_taken (some (call, left)) fewer e =
          let state : ended r call (determine_outcome call cause_text) left ≡ x = cc in
          ap held (sym state)
          ∙ ended-held r call (determine_outcome call cause_text) left (fewer call left refl)

  mark_flow_ran-held : (id : String) (r : CampaignRuntime) → held (mark_flow_ran id r) ≡ held r
  unfolding mark_flow_ran
  mark_flow_ran-held id r = by_call r.registered (lookup id r.active_by_channel) refl
    where
      Same : CampaignRuntime → Type 0
      Same x = held x ≡ held r

      by_call :
          (b : Bool) (o : Option ActiveCall)
          → lookup id r.active_by_channel ≡ o
          → Same (elim (if b then o else none) [
            | none ↦ r
            | some call ↦ record r {
              active_by_channel = insert id (record call { flow_ran = true }) r.active_by_channel;
            }
          ])
      by_call false o e = refl
      by_call true none e = refl
      by_call true (some call) e = ground (
        arith,
        calls-insert_same id (record call { flow_ran = true }) call r.active_by_channel e refl,
      )

  Turn-places : (k : ℕ) (s t : Loops) → Turn k s t → places i t ≡ places i s
  unfolding dial_contact retry_fires stop_campaign
  Turn-places k s t (enters_loop _ room) = refl
  Turn-places k s t (dials _ n c r e next) =
      let (rest, queue, state, low) = next_contact-some s.runtime r c next in
      rw state (ground (arith, ap (times i) queue))
  Turn-places k s t (leaves_loop _ n e next) = refl
  Turn-places k s t (dialled_call _ before after c id e fresh) = ground (
    arith,
    times-middle c before after s.dialled e,
    calls-insert id (record { contact = c; attempt_number = suc c.attempts; flow_ran = false })
        s.runtime.active_by_channel fresh,
  )
  Turn-places k s t (dial_refused _ before after c e) =
      ground (arith, times-middle c before after s.dialled e)
  Turn-places k s t (call_ends _ id cause_text r e) =
      omega (arith, end_call-held id cause_text s.runtime r e)
  Turn-places k s t (flow_runs _ id) = omega (arith, mark_flow_ran-held id s.runtime)
  Turn-places k s t (timer_fires _ before after c e) =
      ground (
        arith,
        times-middle c before after s.runtime.timers e,
        times-append s.runtime.queue (c ∷ []),
      )
  Turn-places k s t (stops _) =
      let Same = λ (y : CampaignRuntime). places i (record s { runtime = y }) ≡ places i s in
      if-holds Same (not s.runtime.registered) (λ _. refl)
        λ _. if-holds Same (eqb (length s.runtime.active_by_channel) 0) (λ _. refl) (λ _. refl)

  Runs-places : (k : ℕ) (s t : Loops) → Runs k s t → places i t ≡ places i s
  Runs-places k s t (stays _) = refl
  Runs-places k s t (goes_on _ u _ before turn) = Turn-places k u t turn ∙ Runs-places k s u before

-- Whatever events come in whatever order, no contact is lost or doubled: an id stands in the queue,
-- among the contacts being dialled, in the calls, among the waiting retries and in the messages that
-- conclude a contact as often, all together, as among the contacts that were read.
pub campaign-places :
    (k : ℕ) (campaign : CampaignRecord) (contacts : List CampaignContact) (t : Loops) (i : ℕ)
    → Runs k (begin campaign contacts) t
    → places i t ≡ times i contacts
unfolding start_campaign
campaign-places k campaign contacts t i runs =
    Runs-places i k (begin campaign contacts) t runs ∙ omega arith
