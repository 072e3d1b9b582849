-- ===== src/User.antt =====
-- The user of the browser and the session that signs its lock requests (stores/userStore.ts). The
-- functions of JavaScript are arguments: `encode_uri_component`, and the texts that `Date.now()` and
-- `Math.random()` give in base 36. `null` and `undefined` are both `none`. The library that keeps the
-- store in the browser calls `migrate` with the version of the store that it finds there.
pub mod Laws
mod Tests
use Prim.Native.String.{String, [], ◌∷◌}
use Prim.Native.Char.{code}
use multi_robot_supervision.Prelude.Text.{◌<>◌}
use multi_robot_supervision.Prelude.{
  ℕ, Option, none, some, Bool, true, false, not, ◌&&◌, if◌then◌else◌, ltb, eqb, is_present, ◌==◌,
}

pub record UserState : Type 0 where
  pub username : Option String
  pub session_id : Option String

-- `generateSessionId`, with the texts of the time and of the random number.
unfoldable pub generate_session_id : (String → String) → String → String → String → String
generate_session_id encode_uri_component now random username =
    "session_" <> encode_uri_component username <> "_" <> now <> "_" <> random

-- /^[\x00-\x7F]*$/.test(str)
unfoldable pub is_ascii_only : String → Bool
is_ascii_only [] = true
is_ascii_only (c ∷ s) = ltb (code c) 128 && is_ascii_only s

-- sessionId && isAsciiOnly(sessionId)
unfoldable pub is_sound_session : Option String → Bool
is_sound_session none = false
is_sound_session (some s) = is_present (some s) && is_ascii_only s

-- persisted?.sessionId && !isAsciiOnly(persisted.sessionId)
unfoldable pub is_unsafe_session : Option String → Bool
is_unsafe_session none = false
is_unsafe_session (some s) = is_present (some s) && not (is_ascii_only s)

-- username === name
abbrev pub is_user : Option String → String → Bool
is_user none name = false
is_user (some user) name = user == name

-- The state before the user has given a name.
abbrev pub no_user : UserState
no_user = record { username = none; session_id = none }

module _ (encode_uri_component : String → String) where
  -- `now` and `random` are the texts that a new session would be made of.
  unfoldable pub set_username : String → String → String → UserState → UserState
  set_username now random name current =
      if is_user (current.username) name && is_sound_session (current.session_id)
      then current
      else record {
        username = some name;
        session_id = some (generate_session_id encode_uri_component now random name);
      }

  -- persisted.username ? generateSessionId(persisted.username) : null
  unfoldable pub renewed : String → String → Option String → Option String
  renewed now random none = none
  renewed now random (some user) =
      if is_present (some user)
      then some (generate_session_id encode_uri_component now random user)
      else none

  -- `migrate` of a store that is there.
  unfoldable pub migrate : String → String → UserState → ℕ → UserState
  unfolding renewed is_unsafe_session
  migrate now random persisted version =
      if eqb version 0 && is_unsafe_session (persisted.session_id)
      then record persisted { session_id = renewed now random (persisted.username) }
      else persisted

unfoldable pub clear_user : UserState → UserState
clear_user current = no_user

-- The states that the store passes through: a browser without a store, or one whose store is of version
-- 0, and the calls of the views.
pub data Reached (encode_uri_component : String → String) (now random : ℕ → String)
    : UserState → Type 0 where
  fresh : Reached encode_uri_component now random no_user
  loaded :
      (t draw : ℕ) (persisted : UserState)
      → Reached encode_uri_component now random
          (migrate encode_uri_component (now t) (random draw) persisted 0)
  named :
      {s : UserState}
      → Reached encode_uri_component now random s
      → (t draw : ℕ) (name : String)
      → Reached encode_uri_component now random
          (set_username encode_uri_component (now t) (random draw) name s)
  cleared :
      {s : UserState}
      → Reached encode_uri_component now random s
      → Reached encode_uri_component now random (clear_user s)
