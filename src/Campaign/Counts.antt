-- ===== src/Campaign/Counts.antt =====
-- How the operations of a campaign (stasis/src/campaign-executor.ts) change its numbers.
use mathlib.Core.Path.{subst}
use callytics.Session.{lookup, insert}
use callytics.Campaign.{
  contact_ended, publish, publish_stats, CampaignContact, ActiveCall, CampaignRuntime, next_contact,
  take_call, end_call, count_outcome, determine_outcome, CallOutcome, is_answered, should_retry,
}
use callytics.Prelude.{
  ℕ, suc, ◌+◌, ◌<◌, String, ◌≡◌, refl, sym, ap, ◌∙◌, inl, inr, Bool, true, false, not, ◌&&◌, Option,
  none, some, List, [], ◌∷◌, ◌++◌, arith, ltb, if◌then◌else◌, Option-cases, if-holds, length, all,
  length-append,
}

pub length-insert :
    (id : String) (c : ActiveCall) (m : List (String × ActiveCall))
    → lookup id m ≡ none
    → length (insert id c m) ≡ suc (length m)
unfolding lookup insert
length-insert id c [] h = refl
length-insert id c ((key, d) ∷ m) h = ground (arith, h, length-insert id c m)

pub length-insert_same :
    (id : String) (c d : ActiveCall) (m : List (String × ActiveCall))
    → lookup id m ≡ some d
    → length (insert id c m) ≡ length m
unfolding lookup insert
length-insert_same id c d [] h = cc
length-insert_same id c d ((key, e) ∷ m) h = ground (arith, h, length-insert_same id c d m)

length-take_call :
    (id : String) (m left : List (String × ActiveCall)) (c : ActiveCall)
    → take_call id m ≡ some (c, left)
    → length m ≡ suc (length left)
unfolding take_call
length-take_call id [] left c h = cc
length-take_call id ((key, d) ∷ m) left c h = elim (Option-cases (take_call id m)) [
  | inl e ↦ ground (arith, e, h)
  | inr ((f, rest), e) ↦ ground (arith, e, h, length-take_call id m rest f)
]

pub length-middle :
    {A : Type 0} (x : A) (before after all : List A)
    → all ≡ before ++ x ∷ after
    → length all ≡ suc (length (before ++ after))
length-middle x before after all h =
    ap length h ∙ length-append before (x ∷ after) ∙ ground (arith, length-append before after)

-- The loop goes on only below the limit, with the first contact of the queue.
pub next_contact-some :
    (r t : CampaignRuntime) (c : CampaignContact)
    → next_contact r ≡ some (c, t)
    → (rest : List CampaignContact) × (r.queue ≡ c ∷ rest)
      × (t ≡ record r { queue = rest })
      × (length r.active_by_channel < r.campaign.max_concurrent)
unfolding next_contact
next_contact-some r t c h =
    by_test (not r.stop_requested && ltb (length r.active_by_channel) r.campaign.max_concurrent)
      r.queue refl refl h
  where
    by_test :
        (b : Bool) (q : List CampaignContact)
        → (not r.stop_requested && ltb (length r.active_by_channel) r.campaign.max_concurrent) ≡ b
        → r.queue ≡ q
        → (if b
            then (elim q as (λ _. Option (CampaignContact × CampaignRuntime)) [
              | [] ↦ none
              | x ∷ xs ↦ some (x, record r { queue = xs })
            ])
            else none)
          ≡ some (c, t)
        → (rest : List CampaignContact) × (r.queue ≡ c ∷ rest)
          × (t ≡ record r { queue = rest })
          × (length r.active_by_channel < r.campaign.max_concurrent)
    by_test false q eb eq e = absurd (cc)
    by_test true [] eb eq e = absurd (cc)
    by_test true (x ∷ xs) eb eq e =
        let same : x ≡ c = cc in
        let state : record r { queue = xs } ≡ t = cc in
        (xs, eq ∙ ap (λ y. y ∷ xs) same, sym state, ground (arith, eb))

-- One more of the calls that have ended is counted, or waits for its retry.
unfoldable pub settled : CampaignRuntime → ℕ
settled r = length r.timers + r.answered_count + r.failed_count

count_outcome-counts :
    (call : ActiveCall) (o : CallOutcome) (r : CampaignRuntime)
    → (settled (count_outcome call o r) ≡ suc (settled r))
      × ((count_outcome call o r).campaign ≡ r.campaign)
      × ((count_outcome call o r).queue ≡ r.queue)
      × ((count_outcome call o r).active_by_channel ≡ r.active_by_channel)
unfolding count_outcome settled
count_outcome-counts call o r =
    if-holds Counts (is_answered o) (λ _. (omega arith, refl, refl, refl))
      λ _.
        if-holds Counts (should_retry r call o) (λ _. (omega arith, refl, refl, refl))
          (λ _. (omega arith, refl, refl, refl))
  where
    Counts : CampaignRuntime → Type 0
    Counts x =
        (length x.timers + x.answered_count + x.failed_count
          ≡ suc (length r.timers + r.answered_count + r.failed_count))
        × (x.campaign ≡ r.campaign)
        × (x.queue ≡ r.queue)
        × (x.active_by_channel ≡ r.active_by_channel)

pub end_call-counts :
    (id cause_text : String) (r x : CampaignRuntime)
    → end_call id cause_text r ≡ some x
    → (settled x ≡ suc (settled r))
      × (x.campaign ≡ r.campaign)
      × (x.queue ≡ r.queue)
      × (length r.active_by_channel ≡ suc (length x.active_by_channel))
unfolding end_call settled
end_call-counts id cause_text r x h =
    by_taken (if r.registered then take_call id r.active_by_channel else none)
      (λ call left. taken r.registered call left) h
  where
    Counts : CampaignRuntime → Type 0
    Counts y =
        (length y.timers + y.answered_count + y.failed_count
          ≡ suc (length r.timers + r.answered_count + r.failed_count))
        × (y.campaign ≡ r.campaign)
        × (y.queue ≡ r.queue)
        × (length r.active_by_channel ≡ suc (length y.active_by_channel))

    taken :
        (b : Bool) (call : ActiveCall) (left : List (String × ActiveCall))
        → (if b then take_call id r.active_by_channel else none) ≡ some (call, left)
        → length r.active_by_channel ≡ suc (length left)
    taken true call left e = length-take_call id r.active_by_channel left call e
    taken false call left e = absurd (cc)

    by_taken :
        (o : Option (ActiveCall × List (String × ActiveCall)))
        → ((call : ActiveCall) (left : List (String × ActiveCall))
            → o ≡ some (call, left)
            → length r.active_by_channel ≡ suc (length left))
        → (elim o as (λ _. Option CampaignRuntime) [
          | none ↦ none
          | some (call, left) ↦
              let outcome = determine_outcome call cause_text in
              some (
                publish_stats (
                  publish
                    (contact_ended call.contact.id outcome (should_retry r call outcome))
                    (count_outcome call outcome (record r { active_by_channel = left }))))
        ])
          ≡ some x
        → Counts x
    by_taken none fewer e = absurd (cc)
    by_taken (some (call, left)) fewer e =
        let outcome = determine_outcome call cause_text in
        let done = count_outcome call outcome (record r { active_by_channel = left }) in
        let counted = count_outcome-counts call outcome (record r { active_by_channel = left }) in
        let state : publish_stats
              (publish (contact_ended call.contact.id outcome (should_retry r call outcome)) done)
            ≡ x =
          cc in
        subst Counts state (
          counted.0,
          counted.1,
          counted.2,
          fewer call left refl ∙ ap (λ m. suc (length m)) (sym (counted.3)),
        )
