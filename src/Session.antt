-- ===== src/Session.antt =====
-- stasis/src/callSession.ts: what a call keeps while its flow runs, and the table of active sessions.
use callytics.Flow.{Flow}
use callytics.Prelude.{
  ℕ, String, ◌≡◌, refl, Option, none, some, List, [], ◌∷◌, arith, ◌==◌, eq_iff, if◌then◌else◌,
  or_else,
}

-- A map from texts: `obj[k] = v`, `obj[k]`, `delete obj[k]`.
module _ {V : Type 0} where
  unfoldable pub remove : String → List (String × V) → List (String × V)
  remove name [] = []
  remove name ((key, value) ∷ entries) =
      if key == name then remove name entries else (key, value) ∷ remove name entries

  unfoldable pub lookup : String → List (String × V) → Option V
  lookup name [] = none
  lookup name ((key, value) ∷ entries) = if key == name then some value else lookup name entries

  pub lookup-remove :
      (name other : String) (entries : List (String × V))
      → lookup other (remove name entries) ≡ (if name == other then none else lookup other entries)
  unfolding remove lookup
  lookup-remove name other [] = ground arith
  lookup-remove name other ((key, value) ∷ entries) = ground (
    arith,
    lookup-remove name other entries,
    eq_iff key name,
    eq_iff key other,
    eq_iff name other,
  )

  unfoldable pub insert : String → V → List (String × V) → List (String × V)
  insert name new [] = (name, new) ∷ []
  insert name new ((key, value) ∷ entries) =
      if key == name then (name, new) ∷ entries else (key, value) ∷ insert name new entries

  pub lookup-insert :
      (name other : String) (new : V) (entries : List (String × V))
      → lookup other (insert name new entries)
        ≡ (if name == other then some new else lookup other entries)
  unfolding insert lookup
  lookup-insert name other new [] = refl
  lookup-insert name other new ((key, value) ∷ entries) = ground (
    arith,
    lookup-insert name other new entries,
    eq_iff key name,
    eq_iff key other,
    eq_iff name other,
  )

abbrev pub Variables : Type 0
Variables = List (String × String)

-- `webhookPayload`, the recording and the bridge are written by executors alone; times are in
-- milliseconds.
pub record CallSession : Type 0 where
  pub call_uuid : String
  pub channel_id : String
  pub caller_number : String
  pub flow : Flow
  pub current_node_key : String
  pub variables : Variables
  pub call_started_at : ℕ
  pub call_ended_at : Option ℕ

unfoldable pub create_session : String → String → Flow → String → ℕ → CallSession
create_session channel caller flow entry now = record {
  call_uuid = channel;
  channel_id = channel;
  caller_number = caller;
  flow = flow;
  current_node_key = entry;
  variables = [];
  call_started_at = now;
  call_ended_at = none;
}

-- The first end that is recorded stays.
unfoldable pub mark_call_ended : CallSession → ℕ → CallSession
mark_call_ended s at = record s { call_ended_at = or_else s.call_ended_at (some at) }
