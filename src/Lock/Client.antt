-- ===== src/Lock/Client.antt =====
-- What the page learns from an answer about a lock (`behaviorTreeLockApi` of api/client.ts). The HTTP
-- library resolves with the data of a good answer and throws for the others; `none` is a call that
-- throws. The bodies of the answers are the server's.
use multi_robot_supervision.Prelude.{
  ℕ, String, Option, none, some, Bool, false, ◌||◌, if◌then◌else◌, eqb, or_text, is_blank, List, [],
  ◌∷◌,
}

pub data Http {ℓ κ} (A : Type ℓ) (B : Type κ) : Type (ℓ ⊔ κ) where
  answered : A → Http A B
  refused : ℕ → B → Http A B
  unreachable : Http A B

-- The data of `acquire`, of a success and of a conflict alike.
pub record AcquireResult : Type 0 where
  pub success : Bool
  pub locked_by : Option String
  pub expires_at : Option ℕ
  pub error : Option String
  pub executing_agents : Option (List String)

unfoldable pub acquire : Http AcquireResult AcquireResult → Option AcquireResult
acquire (Http.answered result) = some result
acquire (Http.refused status result) = if eqb status 409 then some result else none
acquire Http.unreachable = none

pub record HeartbeatResult : Type 0 where
  pub success : Bool
  pub expires_at : Option ℕ
  pub error : Option String

-- A refusal carries the error that its data names, if it has any.
unfoldable pub heartbeat : Http HeartbeatResult (Option String) → Option HeartbeatResult
heartbeat (Http.answered result) = some result
heartbeat (Http.refused status error) =
    if eqb status 409 || eqb status 403
    then some
        (record { success = false; expires_at = none; error = some (or_text error "Lock lost") })
    else none
heartbeat Http.unreachable = none

pub record StatusResult : Type 0 where
  pub is_locked : Bool
  pub locked_by : Option String
  pub expires_at : Option ℕ
  pub is_own_lock : Bool

-- `getStatus`, `release`, `forceRelease` and `templateApi.update` throw for every answer that is not
-- good.
unfoldable pub get_status {κ} : {B : Type κ} → Http StatusResult B → Option StatusResult
get_status (Http.answered status) = some status
get_status (Http.refused status body) = none
get_status Http.unreachable = none

-- The header 'X-Session-ID' of `update` and `getStatus`, sent for a session that is not empty.
unfoldable pub session_headers : String → List (String × String)
session_headers session = if is_blank session then [] else ("X-Session-ID", session) ∷ []
