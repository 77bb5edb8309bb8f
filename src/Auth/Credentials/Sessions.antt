-- ===== src/Auth/Credentials/Sessions.antt =====
-- auth/dependencies.py: what a session cookie is worth.
use mathlib.Core.Path.{subst}
use meshive.Prelude.{
  ℕ, ◌<◌, String, ◌≡◌, ◌≢◌, refl, ap, ◌∙◌, inl, inr, Bool, true, false, not, Option, none, some,
  List, [], ◌∷◌, arith, Bool-cases, filter, ◌==◌, string_eq, nat_eq, get,
}
use meshive.Http.{ok, error}
use meshive.Models.{User, UserSession, Database, user_row}
use meshive.Auth.Credentials.{
  session_of, is_stale, authentication_error, current_session_found, current_session_of,
  get_current_session, changed_password, get_current_user,
}

-- The session and the user behind an answer of `get_current_user`.
pub record IsSignedIn (hash : String → String) (now : ℕ) (cookie : Option String) (db : Database)
    (u : User) : Type 0 where
  pub raw_token : String
  pub session : UserSession
  pub sent : cookie ≡ some raw_token
  pub stored : session_of (hash raw_token) db.sessions ≡ some session
  pub owner : get session.user_id db.users ≡ some u
  pub unexpired : now < session.expires_at
  pub active : u.is_active ≡ true
  pub settled : u.must_change_password ≡ false

module _ (hash : String → String) (now : ℕ) (locked : Bool) (db : Database) (u : User) where
  signed_found :
      (raw : String) (s : UserSession) (o : Option User)
      → session_of (hash raw) db.sessions ≡ some s
      → get s.user_id db.users ≡ o
      → changed_password (current_session_found now locked s o db).0 ≡ ok u
      → IsSignedIn hash now (some raw) db u
  unfolding changed_password current_session_found
  signed_found raw s none e f h = cc
  signed_found raw s (some v) e f h =
      let same : v ≡ u = ground arith in
      record {
        raw_token = raw;
        session = s;
        sent = refl;
        stored = e;
        owner = f ∙ ap some same;
        unexpired = ground arith;
        active = ground arith;
        settled = ground arith;
      }

  signed_of :
      (raw : String) (o : Option UserSession)
      → session_of (hash raw) db.sessions ≡ o
      → changed_password (current_session_of now locked o db).0 ≡ ok u
      → IsSignedIn hash now (some raw) db u
  unfolding changed_password current_session_of
  signed_of raw none e h = cc
  signed_of raw (some s) e h = signed_found raw s (get s.user_id db.users) e refl h

  signed_sent :
      (raw : String) (b : Bool)
      → (raw == "") ≡ b
      → changed_password (get_current_session hash now locked (some raw) db).0 ≡ ok u
      → IsSignedIn hash now (some raw) db u
  unfolding changed_password get_current_session
  signed_sent raw true e h = cc (rw e at h)
  signed_sent raw false e h = signed_of raw (session_of (hash raw) db.sessions) refl (rw e at h)

-- If a cookie signs a user in, then a session is stored under the hash of the cookie and has not
-- expired, and the user is its owner, is active and need not change the password.
pub get_current_user_sound :
    (hash : String → String) (now : ℕ) (locked : Bool) (cookie : Option String) (db : Database)
    (u : User)
    → (get_current_user hash now locked cookie db).0 ≡ ok u
    → IsSignedIn hash now cookie db u
unfolding get_current_user get_current_session changed_password
get_current_user_sound hash now locked none db u h = cc
get_current_user_sound hash now locked (some raw) db u h =
    signed_sent hash now locked db u raw (raw == "") refl h

filled_test : (raw : String) → raw ≢ "" → (raw == "") ≡ false
filled_test raw filled = ground (arith, string_eq.equal_iff raw "")

signed_when_live :
    (hash : String → String) (now : ℕ) (locked : Bool) (raw : String) (db : Database)
    (s : UserSession) (u : User)
    → raw ≢ ""
    → session_of (hash raw) db.sessions ≡ some s
    → get s.user_id db.users ≡ some u
    → is_stale now s u ≡ false
    → u.must_change_password ≡ false
    → changed_password (get_current_session hash now locked (some raw) db).0 ≡ ok u
unfolding get_current_session current_session_of current_session_found changed_password
signed_when_live hash now locked raw db s u filled e f live settled =
    rw (filled_test raw filled, e, f, live, settled)

live_session :
    (now : ℕ) (s : UserSession) (u : User)
    → now < s.expires_at
    → u.is_active ≡ true
    → is_stale now s u ≡ false
live_session now s u unexpired active = ground arith

same_raw :
    (hash : String → String) (raw other : String) (db : Database) {s : UserSession}
    → some raw ≡ some other
    → session_of (hash other) db.sessions ≡ some s
    → session_of (hash raw) db.sessions ≡ some s
same_raw hash raw other db {s} e h =
    subst (λ r. session_of (hash r) db.sessions ≡ some s) (let q : other ≡ raw = ground arith in q)
      h

-- A cookie that is not empty signs in the owner of the session that is stored under its hash, if the
-- session has not expired and the owner is active and need not change the password.
pub get_current_user_complete :
    (hash : String → String) (now : ℕ) (locked : Bool) (cookie : Option String) (db : Database)
    (u : User)
    → IsSignedIn hash now cookie db u
    → cookie ≢ some ""
    → (get_current_user hash now locked cookie db).0 ≡ ok u
unfolding get_current_user get_current_session current_session_of current_session_found
    changed_password
get_current_user_complete hash now locked none db u w filled = cc (w.sent)
get_current_user_complete hash now locked (some raw) db u w filled =
    signed_when_live hash now locked raw db w.session u (λ e. filled (ap some e))
      (same_raw hash raw w.raw_token db w.sent w.stored) w.owner
      (live_session now w.session u w.unexpired w.active) w.settled

removed :
    (h : String) (sessions : List UserSession)
    → session_of h (filter (λ x. not (x.token_hash == h)) sessions) ≡ none
removed h [] = refl
removed h (s ∷ sessions) = elim (Bool-cases (string_eq.equal s.token_hash h)) [
  | inl e ↦ rw e (removed h sessions)
  | inr e ↦ rw (e, e) (removed h sessions)
]

hash_of_found :
    (h : String) (sessions : List UserSession) {s : UserSession}
    → session_of h sessions ≡ some s
    → s.token_hash ≡ h
hash_of_found h [] e = ground arith
hash_of_found h (x ∷ sessions) {s} e =
    ground (arith, string_eq.equal_iff x.token_hash h, hash_of_found h sessions {s = s})

-- A cookie of an expired session, or of a session of a disabled user, is refused, and afterwards no
-- session is stored under the hash of the cookie.
stale_session_removed :
    (hash : String → String) (now : ℕ) (locked : Bool) (raw : String) (db : Database)
    (s : UserSession) (u : User)
    → raw ≢ ""
    → session_of (hash raw) db.sessions ≡ some s
    → get s.user_id db.users ≡ some u
    → is_stale now s u ≡ true
    → ((get_current_session hash now locked (some raw) db).0 ≡ error authentication_error)
      × (session_of (hash raw) (get_current_session hash now locked (some raw) db).1.sessions
          ≡ none)
unfolding get_current_session current_session_of current_session_found
stale_session_removed hash now locked raw db s u filled e f stale =
    rw (filled_test raw filled, e, f, stale)
      (
        refl,
        subst
            (λ h.
              session_of h (filter (λ x. not (x.token_hash == s.token_hash)) db.sessions) ≡ none)
            (hash_of_found (hash raw) db.sessions e) (removed s.token_hash db.sessions),
      )
