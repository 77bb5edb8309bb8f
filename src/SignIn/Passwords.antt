-- ===== src/SignIn/Passwords.antt =====
-- `change_password` of api/auth.py: what is left of an account's former sign-ins.
use meshive.Prelude.{
  ℕ, String, ◌≡◌, refl, ap, sym, inl, inr, Bool, true, false, not, ◌&&◌, ◌||◌, Option, none, some,
  List, [], ◌∷◌, arith, Bool-cases, any, filter, ◌==◌, string_eq, nat_eq, get, get-put_own, ◌∙◌,
}
use meshive.Http.{ok, ok-injective}
use meshive.Models.{User, UserSession, UserActionToken, Database, user_row}
use meshive.Auth.RateLimit.{retry_after, clear}
use meshive.SignIn.{
  Server, Settings, Hasher, Clock, delete_user_action_tokens, stays, change_checked, change_unless,
  change_password,
}

-- The session has the hash of the token in the cookie.
abbrev pub has_cookie : (String → String) → Option String → UserSession → Bool
has_cookie hash none r = false
has_cookie hash (some raw_token) r = not (raw_token == "") && r.token_hash == hash raw_token

-- Sessions of an account that another cookie than this one signs in.
abbrev pub is_other : (String → String) → Option String → ℕ → UserSession → Bool
is_other hash cookie user_id r = r.user_id == user_id && not (has_cookie hash cookie r)

stays-has_cookie :
    (hash : String → String) (cookie : Option String) (r : UserSession)
    → stays hash cookie r ≡ has_cookie hash cookie r
unfolding stays
stays-has_cookie hash none r = refl
stays-has_cookie hash (some raw_token) r = ground arith

module _ (hash : String → String) (cookie : Option String) (i : ℕ) where
  none_other :
      (sessions : List UserSession)
      → any
          (is_other hash cookie i)
          (filter (λ r. not (r.user_id == i) || stays hash cookie r) sessions)
        ≡ false
  none_other [] = refl
  none_other (r ∷ sessions) = ground (arith, stays-has_cookie hash cookie r, none_other sessions)

  others_kept :
      (sessions : List UserSession)
      → filter
          (λ r. not (is_other hash cookie i r))
          (filter (λ r. not (r.user_id == i) || stays hash cookie r) sessions)
        ≡ filter (λ r. not (is_other hash cookie i r)) sessions
  others_kept [] = refl
  others_kept (r ∷ sessions) = ground (arith, stays-has_cookie hash cookie r, others_kept sessions)

pub no_tokens :
    (i : ℕ) (tokens : List UserActionToken)
    → any (λ k. k.user_id == i) (delete_user_action_tokens i tokens) ≡ false
unfolding delete_user_action_tokens
no_tokens i [] = refl
no_tokens i (k ∷ tokens) = ground (arith, no_tokens i tokens)

-- Of a changed account, seen from the former one.
pub record IsChanged (h : Hasher) (hash : String → String) (cookie : Option String)
    (current_password new_password : String) (u v : User) (db db' : Database) : Type 0 where
  pub account : get u.id db'.users ≡ some v
  pub proved : h.verify_password current_password u.password_hash ≡ true
  pub differs : h.verify_password new_password u.password_hash ≡ false
  pub hashed : v.password_hash ≡ h.hash_password new_password
  pub settled : v.must_change_password ≡ false
  pub others_out : any (is_other hash cookie u.id) db'.sessions ≡ false
  pub rest_stays :
      filter (λ r. not (is_other hash cookie u.id r)) db'.sessions
      ≡ filter (λ r. not (is_other hash cookie u.id r)) db.sessions
  pub links_void : any (λ k. k.user_id == u.id) db'.action_tokens ≡ false

module _ (h : Hasher) (hash : String → String) (settings : Settings) (clock : Clock)
    (cookie : Option String) (current_password new_password : String) (u : User) where
  checked-IsChanged :
      (s : Server) (v former : User)
      → get u.id s.db.users ≡ some former
      → h.verify_password current_password u.password_hash ≡ true
      → (change_checked h hash cookie new_password u s).0 ≡ ok v
      → IsChanged h hash cookie current_password new_password u v s.db
          (change_checked h hash cookie new_password u s).1.db
  unfolding change_checked
  checked-IsChanged s v former stored proved e =
      elim (Bool-cases (h.verify_password new_password u.password_hash)) [
        | inl q ↦ cc (rw q at e)
        | inr q ↦
            (let same = ok-injective (rw q at e) in
              rw q (record {
                account =
                    get-put_own u.id
                      (record u {
                        password_hash = h.hash_password new_password;
                        must_change_password = false;
                      })
                      former s.db.users stored refl
                    ∙ ap some same;
                proved = proved;
                differs = q;
                hashed = ap (λ (x : User). x.password_hash) (sym same);
                settled = ap (λ (x : User). x.must_change_password) (sym same);
                others_out = none_other hash cookie u.id s.db.sessions;
                rest_stays = others_kept hash cookie u.id s.db.sessions;
                links_void = no_tokens u.id s.db.action_tokens;
              }))
      ]

  unless-IsChanged :
      (key : String) (wait : Option ℕ) (s : Server) (v former : User)
      → get u.id s.db.users ≡ some former
      → (change_unless h hash settings clock key cookie current_password new_password u wait s).0
        ≡ ok v
      → IsChanged h hash cookie current_password new_password u v s.db
          (change_unless h hash settings clock key cookie current_password new_password u wait
            s).1.db
  unfolding change_unless
  unless-IsChanged key (some wait) s v former stored e = cc
  unless-IsChanged key none s v former stored e =
      elim (Bool-cases (h.verify_password current_password u.password_hash)) [
        | inl q ↦ rw q (
            checked-IsChanged (record s { recoveries = clear key s.recoveries }) v former stored q
              (rw q at e))
        | inr q ↦ cc (rw q at e)
      ]

-- When a user whose account is stored has changed the password, the old one was given and the new one
-- is another. Afterwards the stored account has the hash of the new one and need not change it; no
-- session of the account is left but one with the hash of the cookie's token, every other session stays;
-- and no link that was mailed is left.
pub change_password-IsChanged :
    (h : Hasher) (hash : String → String) (settings : Settings) (clock : Clock) (key : ℕ → String)
    (cookie : Option String) (current_password new_password : String) (u v former : User)
    (s : Server)
    → get u.id s.db.users ≡ some former
    → (change_password h hash settings clock key cookie current_password new_password u s).0 ≡ ok v
    → IsChanged h hash cookie current_password new_password u v s.db
        (change_password h hash settings clock key cookie current_password new_password u s).1.db
unfolding change_password
change_password-IsChanged h hash settings clock key cookie current_password new_password u v former
      s stored e =
    let r =
      retry_after (key u.id) settings.auth_rate_limit_attempts
        settings.auth_rate_limit_window_seconds clock.asked s.recoveries in
    unless-IsChanged h hash settings clock cookie current_password new_password u (key u.id) r.0
      (record s { recoveries = r.1 }) v former stored e
