-- ===== src/User/Laws.antt =====
-- The session of the user store, as the header of a request (stores/userStore.ts).
use Prim.Native.String.{String, [], ◌∷◌}
use text.Mathlib.TextLemmas.{nil-append, cons-append}
use multi_robot_supervision.Prelude.Text.{◌<>◌}
use multi_robot_supervision.Prelude.{
  ℕ, Option, none, some, Bool, true, false, ◌≡◌, refl, arith, eq_refl,
}
use multi_robot_supervision.User.{
  UserState, generate_session_id, is_ascii_only, is_sound_session, set_username, renewed,
  is_unsafe_session, migrate, clear_user, Reached,
}

is_ascii_only-append :
    (s t : String) → is_ascii_only s ≡ true → is_ascii_only t ≡ true → is_ascii_only (s <> t) ≡ true
unfolding is_ascii_only
is_ascii_only-append [] t h k = rw (nil-append t) k
is_ascii_only-append (c ∷ s) t h k =
    rw (cons-append c s t) (ground (arith, is_ascii_only-append s t))

-- A session that is absent or is text for a header.
abbrev pub is_header : Option String → Bool
is_header none = true
is_header (some s) = is_ascii_only s

is_sound_session-append :
    (s t : String)
    → is_sound_session (some s) ≡ true
    → is_ascii_only t ≡ true
    → is_sound_session (some (s <> t)) ≡ true
unfolding is_sound_session is_ascii_only
is_sound_session-append [] t h k = ground arith
is_sound_session-append (c ∷ s) t h k =
    rw (cons-append c s t) (ground (arith, is_ascii_only-append s t))

generate_session_id_sound :
    (encode_uri_component : String → String)
    → ((s : String) → is_ascii_only (encode_uri_component s) ≡ true)
    → (now random user : String) → is_ascii_only now ≡ true
    → is_ascii_only random ≡ true
    → is_sound_session (some (generate_session_id encode_uri_component now random user)) ≡ true
unfolding generate_session_id is_ascii_only is_sound_session
generate_session_id_sound encode_uri_component h now random user k l =
    let named = "session_" <> encode_uri_component user in
    let started = is_sound_session-append "session_" (encode_uri_component user) refl (h user) in
    let timed =
      is_sound_session-append (named <> "_") now (is_sound_session-append named "_" started refl)
        k in
    is_sound_session-append (named <> "_" <> now <> "_") random
      (is_sound_session-append (named <> "_" <> now) "_" timed refl) l

module _ (encode_uri_component : String → String) (now random : ℕ → String)
    (encoded : (s : String) → is_ascii_only (encode_uri_component s) ≡ true)
    (timed : (t : ℕ) → is_ascii_only (now t) ≡ true)
    (drawn : (n : ℕ) → is_ascii_only (random n) ≡ true) where
  new_session :
      (t draw : ℕ) (user : String)
      → is_sound_session
          (some (generate_session_id encode_uri_component (now t) (random draw) user))
        ≡ true
  new_session t draw user =
      generate_session_id_sound encode_uri_component encoded (now t) (random draw) user (timed t)
        (drawn draw)

  renewed_lem :
      (t draw : ℕ) (user : Option String)
      → is_header (renewed encode_uri_component (now t) (random draw) user) ≡ true
  unfolding renewed is_sound_session
  renewed_lem t draw none = refl
  renewed_lem t draw (some user) = ground (arith, new_session t draw user)

  is_unsafe_session_lem : (s : Option String) → is_unsafe_session s ≡ false → is_header s ≡ true
  unfolding is_unsafe_session is_ascii_only
  is_unsafe_session_lem none h = refl
  is_unsafe_session_lem (some []) h = refl
  is_unsafe_session_lem (some (c ∷ s)) h = ground arith

  -- Whatever a store of version 0 held, and whatever names are set and cleared in whatever order, the
  -- session is absent or consists of ASCII characters, when the encoding of a name and the texts of
  -- times and of random numbers do.
  pub Reached-session :
      {s : UserState} → Reached encode_uri_component now random s → is_header (s.session_id) ≡ true
  unfolding set_username migrate renewed is_unsafe_session is_sound_session clear_user
  Reached-session Reached.fresh = refl
  Reached-session (Reached.loaded t draw persisted) =
      ground (
        arith,
        renewed_lem t draw (persisted.username),
        is_unsafe_session_lem (persisted.session_id),
      )
  Reached-session (Reached.named {s} r t draw name) =
      ground (arith, Reached-session r, new_session t draw name)
  Reached-session (Reached.cleared r) = refl

  -- From every state, naming the user again, at any later time, keeps the state that the first naming
  -- gave, session included, when the encoding of a name and the texts of times and of random numbers
  -- are ASCII characters.
  pub set_username-again :
      (t draw later drawn_later : ℕ) (name : String) (s : UserState)
      → set_username encode_uri_component
          (now later)
          (random drawn_later)
          name
          (set_username encode_uri_component (now t) (random draw) name s)
        ≡ set_username encode_uri_component (now t) (random draw) name s
  unfolding set_username
  set_username-again t draw later drawn_later name s =
      ground (arith, new_session t draw name, eq_refl name)
