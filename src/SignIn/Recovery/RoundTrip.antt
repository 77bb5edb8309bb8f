-- ===== src/SignIn/Recovery/RoundTrip.antt =====
-- backend/meshive/api/recovery.py: a link that was asked for, and then used.
use mathlib.Core.Path.{subst}
use meshive.Prelude.{
  some-injective, ℕ, ◌+◌, ◌*◌, ◌<◌, String, ◌≡◌, refl, ap, ◌∙◌, inl, inr, Bool, true, false, not,
  ◌&&◌, ◌||◌, Option, none, some, List, [], ◌∷◌, ◌++◌, arith, leb, Bool-cases, filter, find,
  is_some, ◌==◌, string_eq, nat_eq, get, get-find, HasKeys,
}
use meshive.Http.{ok}
use meshive.Models.{User, UserActionToken, Database, UnicodeText, user_row}
use meshive.Auth.RateLimit.{retry_after}
use meshive.SignIn.{Server, Settings, Hasher, Clock, minute}
use meshive.SignIn.Recovery.Links.{reset_row}
use meshive.SignIn.Recovery.{
  password_reset, issue_action_token, find_action_token, get_user_by_recovery_identifier, or_named,
  same_email, is_eligible, reset_requested, expired_removed, request_unless, request_password_reset,
  reset_found, reset_of, reset_password,
}

token_of_new :
    (hash : String → String) (raw_token : String) (tokens : List UserActionToken)
    (new : UserActionToken)
    → find_action_token hash raw_token password_reset tokens ≡ none
    → new.token_hash ≡ hash raw_token
    → new.purpose ≡ password_reset
    → find_action_token hash raw_token password_reset (tokens ++ new ∷ []) ≡ some new
unfolding find_action_token
token_of_new hash raw_token [] new fresh same purpose = ground (
  arith,
  string_eq.equal_iff new.token_hash (hash raw_token),
  string_eq.equal_iff new.purpose password_reset,
)
token_of_new hash raw_token (k ∷ tokens) new fresh same purpose =
    ground (arith, token_of_new hash raw_token tokens new)

still_none :
    (hash : String → String) (raw_token : String) (p : UserActionToken → Bool)
    (tokens : List UserActionToken)
    → find_action_token hash raw_token password_reset tokens ≡ none
    → find_action_token hash raw_token password_reset (filter p tokens) ≡ none
unfolding find_action_token
still_none hash raw_token p [] fresh = refl
still_none hash raw_token p (k ∷ tokens) fresh = ground (arith, still_none hash raw_token p tokens)

module _ (t : UnicodeText) (hash : String → String) (settings : Settings) (clock : Clock)
    (raw_token identifier : String) (u : User) where
  requested-inv :
      (o : Option User) (db : Database)
      → (reset_requested hash settings clock.now raw_token o db).0 ≡ some u
      → (o ≡ some u)
        × (is_eligible u ≡ true)
        × ((reset_requested hash settings clock.now raw_token o db).1 ≡ record db {
          action_tokens =
              issue_action_token hash raw_token clock.now u password_reset
                (settings.password_reset_lifetime_minutes * minute)
                none
                db.action_tokens;
        })
  unfolding reset_requested
  requested-inv none db e = cc
  requested-inv (some v) db e = elim (Bool-cases (is_eligible v)) [
    | inl q ↦
        (let same : v ≡ u = some-injective (rw q at e) in
          (
            ap some same,
            subst (λ (x : User). is_eligible x ≡ true) same q,
            rw q (
                ap
                  (λ (x : User). record db {
                    action_tokens =
                        issue_action_token hash raw_token clock.now x password_reset
                          (settings.password_reset_lifetime_minutes * minute) none db.action_tokens;
                  })
                  same),
          ))
    | inr q ↦ cc (rw q at e)
  ]

  -- What a request that sent a link has been through.
  unless-inv :
      (key : String) (wait : Option ℕ) (s : Server)
      → (request_unless t hash settings clock key raw_token identifier wait s).1 ≡ some u
      → (get_user_by_recovery_identifier t identifier s.db.users ≡ some u)
        × (is_eligible u ≡ true)
        × ((request_unless t hash settings clock key raw_token identifier wait s).2.db
            ≡ record (expired_removed clock.now s.db) {
              action_tokens =
                  issue_action_token hash raw_token clock.now u password_reset
                    (settings.password_reset_lifetime_minutes * minute)
                    none
                    (expired_removed clock.now s.db).action_tokens;
            })
  unfolding request_unless expired_removed
  unless-inv key (some wait) s e = cc
  unless-inv key none s e =
      requested-inv (get_user_by_recovery_identifier t identifier s.db.users)
        (expired_removed clock.now s.db) e

  request-inv :
      (key : String → String) (s : Server)
      → (request_password_reset t hash settings clock key raw_token identifier s).1 ≡ some u
      → (get_user_by_recovery_identifier t identifier s.db.users ≡ some u)
        × (is_eligible u ≡ true)
        × ((request_password_reset t hash settings clock key raw_token identifier s).2.db
            ≡ record (expired_removed clock.now s.db) {
              action_tokens =
                  issue_action_token hash raw_token clock.now u password_reset
                    (settings.password_reset_lifetime_minutes * minute)
                    none
                    (expired_removed clock.now s.db).action_tokens;
            })
  unfolding request_password_reset
  request-inv key s e = elim (Bool-cases settings.email_delivery_enabled) [
    | inl q ↦ rw q (
        let rate_key = key (t.casefold identifier) in
        let r =
          retry_after rate_key settings.auth_rate_limit_attempts
            settings.auth_rate_limit_window_seconds clock.asked s.recoveries in
        unless-inv rate_key r.0 (record s { recoveries = r.1 }) (rw q at e))
    | inr q ↦ cc (rw q at e)
  ]

owner_found :
    (t : UnicodeText) (identifier : String) (users : List User) (u : User)
    → HasKeys users
    → get_user_by_recovery_identifier t identifier users ≡ some u
    → get u.id users ≡ some u
unfolding get_user_by_recovery_identifier
owner_found t identifier users u keys e = go (find _ users) refl e
  where
    go :
        (o : Option User)
        → find
            (λ u.
              same_email (t.casefold (t.strip identifier)) u.normalized_email
              && is_some u.email_verified_at)
            users
          ≡ o
        → or_named (t.casefold (t.strip identifier)) users o ≡ some u
        → get u.id users ≡ some u
    go none q r = get-find _ users keys r
    go (some v) q r = get-find _ users keys (q ∙ r)

link_lives :
    (expires later : ℕ) (u : User)
    → later < expires
    → is_eligible u ≡ true
    → (leb expires later || not u.is_active) ≡ false
link_lives expires later u unexpired eligible = ground arith

-- The link that a request sends resets the password of the account that it is sent to, until it
-- expires, if nothing comes between, no two accounts have one key, no other reset link has its hash,
-- and the new password is not the old one. The stored account then has the hash of the new password
-- and need not change it.
pub link_resets :
    (h : Hasher) (t : UnicodeText) (hash : String → String) (settings : Settings) (clock : Clock)
    (key : String → String) (raw_token identifier new_password : String) (s : Server) (u : User)
    (later : ℕ)
    → HasKeys s.db.users
    → find_action_token hash raw_token password_reset s.db.action_tokens ≡ none
    → (request_password_reset t hash settings clock key raw_token identifier s).1 ≡ some u
    → later < clock.now + settings.password_reset_lifetime_minutes * minute
    → h.verify_password new_password u.password_hash ≡ false
    → let v : User = record u {
      password_hash = h.hash_password new_password;
      must_change_password = false;
    } in
      let r =
        reset_password h hash later raw_token new_password
          (request_password_reset t hash settings clock key raw_token identifier s).2.db in
      (r.0 ≡ ok v) × (get u.id r.1.users ≡ some v)
unfolding reset_password reset_of reset_found expired_removed issue_action_token
link_resets h t hash settings clock key raw_token identifier new_password s u later keys fresh e
      unexpired other =
    let (known, eligible, written) =
      request-inv t hash settings clock raw_token identifier u key s e in
    let expires = clock.now + settings.password_reset_lifetime_minutes * minute in
    let link : UserActionToken = record {
      token_hash = hash raw_token;
      user_id = u.id;
      purpose = password_reset;
      email = none;
      expires_at = expires;
    } in
    let stands =
      token_of_new hash raw_token
        (filter (λ k. not (k.user_id == u.id && k.purpose == password_reset))
          (filter (λ k. not (leb k.expires_at clock.now)) s.db.action_tokens))
        link (still_none hash raw_token _ _ (still_none hash raw_token _ s.db.action_tokens fresh))
        refl refl in
    rw
      (
        written,
        stands,
        owner_found t identifier s.db.users u keys known,
        link_lives expires later u unexpired eligible,
        other,
      )
      (
        refl,
        reset_row h new_password u.id u _ s.db.users
            (owner_found t identifier s.db.users u keys known) refl,
      )
