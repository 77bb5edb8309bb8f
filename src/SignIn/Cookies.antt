-- ===== src/SignIn/Cookies.antt =====
-- `login` and `logout` of api/auth.py with `get_current_user` of auth/dependencies.py: what the cookie
-- of a sign-in is worth, and how long.
use mathlib.Core.Path.{subst}
use meshive.Prelude.{
  some-injective, ℕ, ◌+◌, ◌*◌, ◌<◌, String, ◌≡◌, ◌≢◌, refl, ap, sym, inl, inr, Bool, true, false,
  not, ◌||◌, Option, none, some, List, [], ◌∷◌, ◌++◌, arith, Bool-cases, ◌==◌, string_eq, nat_eq,
  get-find, HasKeys,
}
use meshive.Http.{ok, error, ok-injective}
use meshive.Models.{User, UserSession, Database, UnicodeText, user_row}
use meshive.Auth.RateLimit.{retry_after}
use meshive.Users.{normalize_username}
use meshive.Auth.Credentials.{
  session_of, current_session_of, get_current_user, get_current_session, authentication_error,
}
use meshive.Auth.Credentials.Sessions.{IsSignedIn, get_current_user_complete}
use meshive.SignIn.{
  Server, Settings, Hasher, Clock, day, get_user_by_username, create_user_session, login_as,
  login_unless, login, without_session, logout,
}

-- What a sign-in that succeeded has been through.
pub record IsLogin (h : Hasher) (t : UnicodeText) (hash : String → String) (settings : Settings)
    (clock : Clock) (raw_token username password : String) (s : Server) (u : User) (s' : Server)
    : Type 0 where
  pub known : get_user_by_username t username s.db.users ≡ some u
  pub verified : h.verify_password password u.password_hash ≡ true
  pub active : u.is_active ≡ true
  pub written : s'.db ≡ record s.db {
    sessions = s.db.sessions ++ create_user_session hash settings clock.now raw_token u ∷ [];
  }

module _ (h : Hasher) (t : UnicodeText) (hash : String → String) (settings : Settings)
    (clock : Clock) (raw_token username password : String) where
  login_as-inv :
      (key : String) (o : Option User) (s : Server) (u : User)
      → (login_as h hash settings clock raw_token key password o s).0 ≡ ok u
      → (o ≡ some u)
        × (h.verify_password password u.password_hash ≡ true)
        × (u.is_active ≡ true)
        × ((login_as h hash settings clock raw_token key password o s).1.db ≡ record s.db {
          sessions = s.db.sessions ++ create_user_session hash settings clock.now raw_token u ∷ [];
        })
  unfolding login_as
  login_as-inv key none s u e = cc
  login_as-inv key (some v) s u e =
      elim (Bool-cases (not (h.verify_password password v.password_hash) || not v.is_active)) [
        | inl q ↦ cc (rw q at e)
        | inr q ↦
            (let same : v ≡ u = ok-injective (rw q at e) in
              (
                ap some same,
                subst (λ (x : User). h.verify_password password x.password_hash ≡ true) same
                    (ground arith),
                subst (λ (x : User). x.is_active ≡ true) same (ground arith),
                rw q (
                    ap
                      (λ (x : User). record s.db {
                        sessions =
                            s.db.sessions
                            ++ create_user_session hash settings clock.now raw_token x ∷ [];
                      })
                      same),
              ))
      ]

  unless-IsLogin :
      (wait : Option ℕ) (s : Server) (u : User)
      → (login_unless h t hash settings clock raw_token username password wait s).0 ≡ ok u
      → IsLogin h t hash settings clock raw_token username password s u
          (login_unless h t hash settings clock raw_token username password wait s).1
  unfolding login_unless
  unless-IsLogin (some wait) s u e = cc
  unless-IsLogin none s u e =
      let (known, verified, active, written) =
        login_as-inv (normalize_username t username) (get_user_by_username t username s.db.users) s
          u e in
      record { known = known; verified = verified; active = active; written = written }

  pub login-IsLogin :
      (s : Server) (u : User)
      → (login h t hash settings clock raw_token username password s).0 ≡ ok u
      → IsLogin h t hash settings clock raw_token username password s u
          (login h t hash settings clock raw_token username password s).1
  unfolding login
  login-IsLogin s u e =
      let r =
        retry_after (normalize_username t username) settings.auth_rate_limit_attempts
          settings.auth_rate_limit_window_seconds clock.asked s.logins in
      let w = unless-IsLogin r.0 (record s { logins = r.1 }) u e in
      record { known = w.known; verified = w.verified; active = w.active; written = w.written }

-- The first session of a hash, when it is the last one that was added.
session_of_new :
    (token_hash : String) (sessions : List UserSession) (new : UserSession)
    → session_of token_hash sessions ≡ none
    → new.token_hash ≡ token_hash
    → session_of token_hash (sessions ++ new ∷ []) ≡ some new
session_of_new token_hash [] new fresh same =
    ground (arith, string_eq.equal_iff new.token_hash token_hash)
session_of_new token_hash (x ∷ sessions) new fresh same =
    ground (arith, session_of_new token_hash sessions new)

not_empty : (raw : String) → raw ≢ "" → (raw == "") ≡ false
not_empty raw filled = ground (arith, string_eq.equal_iff raw "")

-- Until the session of a sign-in expires, its cookie signs in the account that the sign-in gave, if the
-- account need not change its password, the token is not empty and no session had its hash.
pub login_cookie :
    (h : Hasher) (t : UnicodeText) (hash : String → String) (settings : Settings) (clock : Clock)
    (raw_token username password : String) (s : Server) (u : User) (later : ℕ) (locked : Bool)
    → (login h t hash settings clock raw_token username password s).0 ≡ ok u
    → raw_token ≢ ""
    → session_of (hash raw_token) s.db.sessions ≡ none
    → HasKeys s.db.users
    → u.must_change_password ≡ false
    → later < clock.now + settings.session_lifetime_days * day
    → (get_current_user hash later locked
        (some raw_token)
        (login h t hash settings clock raw_token username password s).1.db).0
      ≡ ok u
unfolding get_user_by_username create_user_session
login_cookie h t hash settings clock raw_token username password s u later locked e filled fresh
      keys settled unexpired =
    let w = login-IsLogin h t hash settings clock raw_token username password s u e in
    let new = create_user_session hash settings clock.now raw_token u in
    let db' : Database = record s.db { sessions = s.db.sessions ++ new ∷ [] } in
    let signed : IsSignedIn hash later (some raw_token) db' u = record {
      raw_token = raw_token;
      session = new;
      sent = refl;
      stored = session_of_new (hash raw_token) s.db.sessions new fresh refl;
      owner = get-find _ s.db.users keys w.known;
      unexpired = unexpired;
      active = w.active;
      settled = settled;
    } in
    subst (λ d. (get_current_user hash later locked (some raw_token) d).0 ≡ ok u) (sym w.written)
      (get_current_user_complete hash later locked (some raw_token) db' u signed
        (λ q. filled (some-injective q)))

session_gone :
    (h : String) (sessions : List UserSession) → session_of h (without_session h sessions) ≡ none
unfolding without_session
session_gone h [] = refl
session_gone h (s ∷ sessions) = ground (arith, session_gone h sessions)

-- After a logout the cookie is refused, whatever the instant.
logout_refuses :
    (hash : String → String) (raw_token : String) (now : ℕ) (locked : Bool) (db : Database)
    → (get_current_session hash now locked (some raw_token) (logout hash (some raw_token) db)).0
      ≡ error authentication_error
unfolding logout get_current_session current_session_of
logout_refuses hash raw_token now locked db = elim (Bool-cases (string_eq.equal raw_token "")) [
  | inl e ↦ rw e refl
  | inr e ↦ rw (e, session_gone (hash raw_token) db.sessions)
]
