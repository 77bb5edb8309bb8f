-- ===== src/SignIn/Recovery/Links.antt =====
-- backend/meshive/api/recovery.py: what a link is worth, and what a request for one tells.
use meshive.Prelude.{
  ℕ, ◌<◌, String, ◌≡◌, refl, ap, sym, ◌∙◌, inl, inr, true, false, not, ◌||◌, Option, none, some,
  List, [], ◌∷◌, arith, leb, Bool-cases, any, filter, ◌==◌, string_eq, nat_eq, get, put,
  get-put_own, own_row,
}
use meshive.Http.{ok, ok-injective}
use meshive.Models.{User, UserSession, UserActionToken, Database, UnicodeText, user_row}
use meshive.Auth.RateLimit.{retry_after}
use meshive.SignIn.{Server, Settings, Hasher, Clock}
use meshive.SignIn.Passwords.{no_tokens}
use meshive.SignIn.Recovery.{
  password_reset, find_action_token, request_unless, request_password_reset, reset_found, reset_of,
  reset_password, refused,
}

no_sessions :
    (i : ℕ) (sessions : List UserSession)
    → any (λ s. s.user_id == i) (filter (λ s. not (s.user_id == i)) sessions) ≡ false
no_sessions i [] = refl
no_sessions i (s ∷ sessions) = ground (arith, no_sessions i sessions)

-- The row of an account after its password was set.
pub reset_row :
    (h : Hasher) (new_password : String) (i : ℕ) (u v : User) (users : List User)
    → get i users ≡ some u
    → record u { password_hash = h.hash_password new_password; must_change_password = false } ≡ v
    → get u.id (
        put
          (record u { password_hash = h.hash_password new_password; must_change_password = false })
          users)
      ≡ some v
reset_row h new_password i u v users was same =
    get-put_own u.id
      (record u { password_hash = h.hash_password new_password; must_change_password = false }) u
      users (own_row i users u was) refl
    ∙ ap some same

-- What a reset that succeeded has been through, and what it leaves.
pub record IsReset (h : Hasher) (hash : String → String) (now : ℕ) (raw_token new_password : String)
    (db : Database) (v : User) (db' : Database) : Type 0 where
  pub link : UserActionToken
  pub former : User
  pub stored : find_action_token hash raw_token password_reset db.action_tokens ≡ some link
  pub owner : get link.user_id db.users ≡ some former
  pub unexpired : now < link.expires_at
  pub active : former.is_active ≡ true
  pub account : get former.id db'.users ≡ some v
  pub hashed : v.password_hash ≡ h.hash_password new_password
  pub settled : v.must_change_password ≡ false
  pub signed_out : any (λ s. s.user_id == former.id) db'.sessions ≡ false
  pub links_void : any (λ k. k.user_id == former.id) db'.action_tokens ≡ false

module _ (h : Hasher) (hash : String → String) (now : ℕ) (raw_token new_password : String)
    (db : Database) (v : User) where
  found-IsReset :
      (k : UserActionToken) (o : Option User)
      → find_action_token hash raw_token password_reset db.action_tokens ≡ some k
      → get k.user_id db.users ≡ o
      → (reset_found h now new_password k o db).0 ≡ ok v
      → IsReset h hash now raw_token new_password db v (reset_found h now new_password k o db).1
  unfolding reset_found refused
  found-IsReset k none s o e = cc
  found-IsReset k (some u) s o e = elim (Bool-cases (leb k.expires_at now || not u.is_active)) [
    | inl q ↦ cc (rw q at e)
    | inr q ↦ elim (Bool-cases (h.verify_password new_password u.password_hash)) [
      | inl r ↦ cc (rw (q, r) at e)
      | inr r ↦
          rw (q, r)
            (record {
              link = k;
              former = u;
              stored = s;
              owner = o;
              unexpired = ground arith;
              active = ground arith;
              account =
                  reset_row h new_password k.user_id u v db.users o (ok-injective (rw (q, r) at e));
              hashed = ap (λ (x : User). x.password_hash) (sym (ok-injective (rw (q, r) at e)));
              settled =
                  ap (λ (x : User). x.must_change_password) (sym (ok-injective (rw (q, r) at e)));
              signed_out = no_sessions u.id db.sessions;
              links_void = no_tokens u.id db.action_tokens;
            })
    ]
  ]

  of-IsReset :
      (o : Option UserActionToken)
      → find_action_token hash raw_token password_reset db.action_tokens ≡ o
      → (reset_of h now new_password o db).0 ≡ ok v
      → IsReset h hash now raw_token new_password db v (reset_of h now new_password o db).1
  unfolding reset_of
  of-IsReset none s e = cc
  of-IsReset (some k) s e = found-IsReset k (get k.user_id db.users) s refl e

-- A password is reset only by a link that is stored, has not expired and belongs to an active account.
-- Afterwards the stored account has the hash of the new password and need not change it, it is signed
-- in nowhere, and no link of it is left, this one included.
pub reset_password-IsReset :
    (h : Hasher) (hash : String → String) (now : ℕ) (raw_token new_password : String)
    (db : Database) (v : User)
    → (reset_password h hash now raw_token new_password db).0 ≡ ok v
    → IsReset h hash now raw_token new_password db v
        (reset_password h hash now raw_token new_password db).1
unfolding reset_password
reset_password-IsReset h hash now raw_token new_password db v e =
    of-IsReset h hash now raw_token new_password db v
      (find_action_token hash raw_token password_reset db.action_tokens) refl e

unless_tells :
    (t : UnicodeText) (hash : String → String) (settings : Settings) (clock : Clock)
    (key raw_token identifier : String) (wait : Option ℕ) (s s' : Server)
    → (request_unless t hash settings clock key raw_token identifier wait s).0
      ≡ (request_unless t hash settings clock key raw_token identifier wait s').0
unfolding request_unless
unless_tells t hash settings clock key raw_token identifier (some wait) s s' = refl
unless_tells t hash settings clock key raw_token identifier none s s' = refl

-- The answer to a request for a link depends on the settings and the limiter only: not on the accounts
-- that there are.
pub request_tells_nothing :
    (t : UnicodeText) (hash : String → String) (settings : Settings) (clock : Clock)
    (key : String → String) (raw_token identifier : String) (s s' : Server)
    → s.recoveries ≡ s'.recoveries
    → (request_password_reset t hash settings clock key raw_token identifier s).0
      ≡ (request_password_reset t hash settings clock key raw_token identifier s').0
unfolding request_password_reset request_unless
request_tells_nothing t hash settings clock key raw_token identifier s s' e =
    elim (Bool-cases settings.email_delivery_enabled) [
      | inl q ↦ rw q (
          let rate_key = key (t.casefold identifier) in
          let ask =
            retry_after rate_key settings.auth_rate_limit_attempts
              settings.auth_rate_limit_window_seconds clock.asked in
          let b : Server = record s' { recoveries = (ask s'.recoveries).1 } in
          unless_tells t hash settings clock rate_key raw_token identifier (ask s.recoveries).0
            (record s { recoveries = (ask s.recoveries).1 }) b
          ∙ ap
              (λ l.
                (request_unless t hash settings clock rate_key raw_token identifier (ask l).0 b).0)
              e)
      | inr q ↦ rw q refl
    ]
