-- ===== src/Store/Guards.antt =====
-- The timed claims of InMemoryConversationStore in app/conversation_store.py: a dict from a message
-- id, sender or idempotency key to (state, token, expires_at). The clock is time.monotonic in
-- seconds; the token of a claim is an argument, since the source draws it by `secrets`.
use ai_whats_app_shipment_as.Prelude.{
  ℕ, ◌+◌, ◌*◌, String, Bool, true, false, ◌&&◌, Option, none, some, max, ltb, str_eq, if◌then◌else◌,
}
use ai_whats_app_shipment_as.Prelude.Dict
use ai_whats_app_shipment_as.Prelude.Dict.{Dict}

pub data State : Type 0 where
  processing completed : State

-- `never` is float("inf").
pub data Expiry : Type 0 where
  at : ℕ → Expiry
  never : Expiry

pub record Claim : Type 0 where
  pub state : State
  pub token : String
  pub expires_at : Expiry

abbrev pub Claims : Type 0
Claims = Dict Claim

abbrev pub inbound_processing_ttl : ℕ
inbound_processing_ttl = 15 * 60

abbrev pub inbound_completed_ttl : ℕ
inbound_completed_ttl = 7 * 24 * 60 * 60

-- expires_at > now
abbrev pub is_live : ℕ → Expiry → Bool
is_live now (at t) = ltb now t
is_live now never = true

abbrev pub is_processing : State → Bool
is_processing processing = true
is_processing completed = false

abbrev pub holds_live : ℕ → Option Claim → Bool
holds_live now none = false
holds_live now (some c) = is_live now c.expires_at

-- a claim that its owner may still change
abbrev pub owned_by : String → Option Claim → Bool
owned_by token none = false
owned_by token (some c) = is_processing c.state && str_eq c.token token

-- claim_incoming_message (with the processing TTL) and _claim_memory_guard
unfoldable pub claim : ℕ → ℕ → String → String → Claims → Claims × Option String
claim ttl now token key d = if holds_live now (Dict.get key d) then (d, none) else (
  Dict.put key (record { state = processing; token = token; expires_at = at (now + max 1 ttl) }) d,
  some token,
)

-- complete_incoming_message and complete_outbound_reply
unfoldable pub complete : ℕ → ℕ → String → String → Claims → Claims
complete ttl now token key d =
    if owned_by token (Dict.get key d)
    then Dict.put key (record { state = completed; token = ""; expires_at = at (now + ttl) }) d
    else d

-- release_incoming_message and _release_memory_guard
unfoldable pub release : String → String → Claims → Claims
release token key d = if owned_by token (Dict.get key d) then Dict.pop key d else d

-- refresh_conversation_processing
unfoldable pub refresh : ℕ → ℕ → String → String → Claims → Claims × Bool
refresh ttl now token key d =
    if owned_by token (Dict.get key d)
    then (
      Dict.put key (record { state = processing; token = token; expires_at = at (now + ttl) }) d,
      true,
    )
    else (d, false)

-- Queued work pins its claim: enqueue_incoming_work lets it never expire.
unfoldable pub pin : String → String → Claims → Claims
pin token key d =
    if owned_by token (Dict.get key d)
    then Dict.put key (record { state = processing; token = token; expires_at = never }) d
    else d

-- the TTL of a conversation's processing claim
abbrev pub conversation_ttl : ℕ → ℕ → ℕ
conversation_ttl lock_ttl turn_timeout = max 30 (max lock_ttl (turn_timeout + 30))

abbrev pub outbound_ttl : ℕ → ℕ
outbound_ttl dedupe_ttl = max 60 dedupe_ttl

-- _revoked_inbound: mark_inbound_revoked and is_inbound_revoked
unfoldable pub mark_revoked : ℕ → String → Dict ℕ → Dict ℕ
mark_revoked now message_id d = Dict.put message_id (now + inbound_completed_ttl) d

abbrev pub expiry_or_zero : Option ℕ → ℕ
expiry_or_zero none = 0
expiry_or_zero (some t) = t

unfoldable pub is_revoked : ℕ → String → Dict ℕ → Dict ℕ × Bool
is_revoked now message_id d =
    if ltb now (expiry_or_zero (Dict.get message_id d))
    then (d, true)
    else (Dict.pop message_id d, false)
