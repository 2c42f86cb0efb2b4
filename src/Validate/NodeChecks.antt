-- ===== src/Validate/NodeChecks.antt =====
-- backend/src/flows/flows.service.ts: `validateNodeConfig`. The protocol of a URL, or its refusal, is
-- a parameter (`new URL`).
use callytics.Flow.{FlowNode}
use callytics.Js.{
  Value, undefined, null, str, arr, obj, items, Fields, end, field, get, Number, nan, nat, negative,
  to_number, truthy, text_of, positive_id,
}
use callytics.Validate.{
  node_message, throw_if, when, first_error, one_of, is_absent, all_chars, is_alnum,
  is_valid_extension_target, is_valid_pstn_target, is_valid_sip_uri_target, is_positive_id,
  is_valid_menu_branch_value,
}
use callytics.Prelude.{
  String, Bool, true, false, not, ◌&&◌, ◌||◌, Option, none, some, List, [], ◌∷◌, ◌==◌, leb, eqb,
  if◌then◌else◌, or_else, is_some, length, filter, any, trim, is_empty,
}

-- `String(config[key] || '').trim()`
abbrev text_field : Fields → String → String
text_field config key = trim (text_of (get config key))

abbrev pub elements : Value → Option (List Value)
elements (arr vs) = some (items vs)
elements v = none

pub validate_transfer_target_value : String → String → String → Option String
validate_transfer_target_value key type value =
    or_else
      (throw_if (type == "extension" && not (is_valid_extension_target value)) (
        node_message key
          "extension target_value must contain only letters, numbers, underscores, or hyphens"))
      (or_else
        (throw_if (type == "pstn" && not (is_valid_pstn_target value))
          (node_message key "pstn target_value must be 4-20 digits with an optional leading +"))
        (throw_if (type == "sip_uri" && not (is_valid_sip_uri_target value))
          (node_message key "sip_uri target_value must be a valid SIP URI")))

pub validate_hunt_target_value : String → String → String → Option String
validate_hunt_target_value key type value =
    or_else
      (throw_if (type == "extension" && not (is_valid_extension_target value)) (
        node_message key
          "hunt destination extension target_value must contain only letters, numbers, underscores, or hyphens"))
      (throw_if (type == "pstn" && not (is_valid_pstn_target value)) (
        node_message key
          "hunt destination pstn target_value must be 4-20 digits with an optional leading +"))

-- `value[key]`, which null and undefined refuse.
abbrev member_of : Value → String → Option Value
member_of undefined key = none
member_of null key = none
member_of (obj fs) key = some (get fs key)
member_of v key = some undefined

abbrev member_text : Value → String → String
member_text v key = elim (member_of v key) [ none ↦ "" | some w ↦ trim (text_of w) ]

hunt_destination : String → Value → Option String
hunt_destination key entry =
    let type = member_text entry "target_type" in
    let value = member_text entry "target_value" in
    or_else
      (throw_if (not (is_some (member_of entry "target_type")))
        "Cannot read properties of null (reading 'target_type')")
      (or_else
        (throw_if (not (one_of type ("extension" ∷ "pstn" ∷ [])))
          (node_message key "hunt destination target_type must be extension or pstn"))
        (or_else
          (throw_if (is_empty value) (node_message key "hunt destination target_value is required"))
          (validate_hunt_target_value key type value)))

get_digits_check : FlowNode → Option String
get_digits_check node =
    or_else
      (throw_if (is_empty (text_field node.config "variable_name"))
        (node_message node.node_key "variable_name is required"))
      (throw_if (is_absent (get node.config "timeout_ms"))
        (node_message node.node_key "timeout_ms is required"))

transfer_check : FlowNode → Option String
transfer_check node =
    let type = text_field node.config "target_type" in
    let value = text_field node.config "target_value" in
    or_else
      (throw_if (not (one_of type ("extension" ∷ "pstn" ∷ "sip_uri" ∷ [])))
        (node_message node.node_key "target_type must be extension, pstn, or sip_uri"))
      (or_else (throw_if (is_empty value) (node_message node.node_key "target_value is required"))
        (validate_transfer_target_value node.node_key type value))

abbrev pub no_elements : List Value → Bool
no_elements [] = true
no_elements (v ∷ vs) = false

hunt_check : FlowNode → Option String
unfolding hunt_destination
hunt_check node =
    let missing = some (node_message node.node_key "destinations must have at least one entry") in
    elim (elements (get node.config "destinations")) [
      | none ↦ missing
      | some vs ↦
          if no_elements vs then missing else first_error (hunt_destination node.node_key) vs
    ]

unfoldable pub menu_check : FlowNode → Option String
menu_check node =
    let missing = some (node_message node.node_key "branches must have at least one entry") in
    or_else
      (throw_if (not (is_positive_id (get node.config "prompt_audio_file_id")))
        (node_message node.node_key "prompt_audio_file_id is required"))
      (elim (elements (get node.config "branches")) [
        | none ↦ missing
        | some vs ↦
            if no_elements vs
            then missing
            else first_error
                (λ v.
                  throw_if (not (is_valid_menu_branch_value (text_of v)))
                    (node_message node.node_key "branch keys must be 1-2 digits, *, or #"))
                vs
      ])

queue_ids_raw : Fields → List Value
queue_ids_raw config = elim (elements (get config "queue_ids")) [
  | none ↦ if is_positive_id (get config "queue_id") then get config "queue_id" ∷ [] else []
  | some vs ↦ vs
]

queue_login_check : FlowNode → Option String
unfolding queue_ids_raw
queue_login_check node =
    let raw = queue_ids_raw node.config in
    let ids = filter is_positive_id raw in
    or_else
      (throw_if (no_elements ids) (node_message node.node_key "at least one queue is required"))
      (throw_if (not (eqb (length ids) (length raw)))
        (node_message node.node_key "queue_ids must contain only positive integer IDs"))

-- `value === text`
abbrev is_text : Value → String → Bool
is_text (str s) t = s == t
is_text v t = false

conference_check : FlowNode → Option String
conference_check node =
    let room = text_field node.config "roomName" in
    let moderator = get node.config "moderatorType" in
    or_else (throw_if (is_empty room) (node_message node.node_key "roomName is required")) (
      or_else
        (throw_if (not (all_chars is_alnum room))
          (node_message node.node_key "roomName must contain only letters and numbers"))
        (when (truthy (get node.config "waitForModerator")) (
          or_else
            (throw_if (not (is_text moderator "pstn" || is_text moderator "extension"))
              (node_message node.node_key "moderatorType must be extension or pstn"))
            (throw_if (not (is_some (positive_id (get node.config "moderatorId"))))
              (node_message node.node_key "moderatorId is required")))))

from_1_to_20 : Number → Bool
from_1_to_20 nan = false
from_1_to_20 (nat n) = leb 1 n && leb n 20
from_1_to_20 (negative n) = false

callback_check : FlowNode → Option String
unfolding from_1_to_20
callback_check node =
    let source = text_field node.config "number_source" in
    let digits = get node.config "dtmf_max_digits" in
    or_else
      (throw_if (not (one_of source ("ani" ∷ "dtmf" ∷ [])))
        (node_message node.node_key "number_source must be ani or dtmf"))
      (or_else
        (throw_if (is_empty (text_field node.config "destination_value"))
          (node_message node.node_key "destination_value is required"))
        (when (source == "dtmf") (
          throw_if (not (from_1_to_20 (if is_absent digits then nat 11 else to_number digits)))
            (node_message node.node_key "dtmf_max_digits must be between 1 and 20"))))

-- `Object.values`
values : Fields → List Value
values end = []
values (field k v fs) = v ∷ values fs

business_hours_check : FlowNode → Option String
unfolding values
business_hours_check node =
    let missing = some (node_message node.node_key "at least one enabled schedule is required") in
    elim (get node.config "schedule") [
      | obj fs ↦
          if any (values fs)
            (λ v. elim (member_of v "enabled") [ none ↦ false | some w ↦ truthy w ])
          then none
          else missing
      | _ ↦ missing
    ]

-- `url_protocol` is `none` where `new URL` throws.
module _ (url_protocol : String → Option String) where
  webhook_check : FlowNode → Option String
  webhook_check node =
      let url = text_field node.config "url" in
      or_else (throw_if (is_empty url) "Webhook node: url is required") (elim (url_protocol url) [
        | none ↦ some "Webhook node: url is not a valid URL"
        | some protocol ↦
            throw_if (not (one_of protocol ("http:" ∷ "https:" ∷ [])))
              "Webhook node: url must use http or https"
      ])

  unfoldable pub validate_node_config : FlowNode → Option String
  unfolding get_digits_check transfer_check hunt_check queue_login_check conference_check
      callback_check webhook_check business_hours_check
  validate_node_config node =
      let key = node.node_key in
      first_error (λ (type, check). when (node.type == type) check)
        ((
          "play_audio",
          throw_if (not (is_positive_id (get node.config "audio_file_id")))
              (node_message key "audio_file_id is required"),
        )
          ∷ ("get_digits", get_digits_check node)
          ∷ ("transfer", transfer_check node)
          ∷ ("hunt", hunt_check node)
          ∷ ("menu", menu_check node)
          ∷ ("queue_login", queue_login_check node)
          ∷ (
            "queue",
            throw_if (not (truthy (get node.config "queue_id")))
                (node_message key "queue is required"),
          )
          ∷ ("conference", conference_check node)
          ∷ ("callback", callback_check node)
          ∷ ("webhook", webhook_check node)
          ∷ (
            "voicemail",
            throw_if (not (is_positive_id (get node.config "start_audio_id")))
                (node_message key "start_audio_id is required"),
          )
          ∷ ("business_hours", business_hours_check node)
          ∷ [])
