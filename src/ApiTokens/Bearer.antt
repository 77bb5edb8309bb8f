-- ===== src/ApiTokens/Bearer.antt =====
-- backend/meshive/api/api_tokens.py with `get_current_user_or_api_token` of auth/dependencies.py: a token
-- that is created, sent and revoked.
use mathlib.Core.Path.{subst}
use meshive.Prelude.{
  ℕ, String, ◌≡◌, refl, sym, ap, ◌∙◌, inl, inr, Bool, true, false, not, ◌&&◌, ◌||◌, Option, none,
  some, [], ◌∷◌, ◌++◌, Bool-cases, find, find_last, find_deleted, find_holds, ◌==◌, string_eq,
  nat_eq, eq_of_beq, get, delete,
}
use meshive.Http.{ok, error, ok-injective}
use meshive.Models.{User, ApiToken, Database, UnicodeText, user_row, api_token_row}
use meshive.Auth.RateLimit.{retry_after}
use meshive.Auth.Credentials.{
  bearer_token, is_past, api_user_found, api_user_of, with_token, get_current_user_or_api_token,
  authentication_error,
}
use meshive.SignIn.{Server, Settings, Hasher, Clock}
use meshive.ApiTokens.{
  ApiTokenCreate, api_token_expiration, new_token, create_unless, create_api_token, revoke_found,
  revoke_api_token,
}

abbrev pub with_hash : String → ApiToken → Bool
with_hash token_hash k = k.token_hash == token_hash

-- What the creation of a token has written.
record IsCreated (hash display : String → String) (now : ℕ) (plaintext : String)
    (payload : ApiTokenCreate) (u : User) (s : Server) (k : ApiToken) (s' : Server) : Type 0 where
  row : k ≡ new_token hash display now plaintext payload u s.db
  tokens : s'.db.api_tokens ≡ s.db.api_tokens ++ k ∷ []
  users : s'.db.users ≡ s.db.users

module _ (h : Hasher) (hash display : String → String) (settings : Settings) (clock : Clock)
    (rate_key plaintext : String) (payload : ApiTokenCreate) (u : User) where
  unless-IsCreated :
      (wait : Option ℕ) (s : Server) (k : ApiToken)
      → (create_unless h hash display settings clock rate_key plaintext payload u wait s).0 ≡ ok k
      → IsCreated hash display clock.now plaintext payload u s k
          (create_unless h hash display settings clock rate_key plaintext payload u wait s).1
  unfolding create_unless
  unless-IsCreated (some wait) s k e = cc
  unless-IsCreated none s k e =
      elim (Bool-cases (h.verify_password payload.current_password u.password_hash)) [
        | inl q ↦
            (let same = ok-injective (rw q at e) in
              rw q (record {
                row = sym same;
                tokens = ap (λ x. s.db.api_tokens ++ x ∷ []) same;
                users = refl;
              }))
        | inr q ↦ cc (rw q at e)
      ]

  create-IsCreated :
      (s : Server) (k : ApiToken)
      → (create_api_token h hash display settings clock rate_key plaintext payload u s).0 ≡ ok k
      → IsCreated hash display clock.now plaintext payload u s k
          (create_api_token h hash display settings clock rate_key plaintext payload u s).1
  unfolding create_api_token
  create-IsCreated s k e =
      let r =
        retry_after rate_key settings.auth_rate_limit_attempts
          settings.auth_rate_limit_window_seconds clock.asked s.recoveries in
      let w = unless-IsCreated r.0 (record s { recoveries = r.1 }) k e in
      record { row = w.row; tokens = w.tokens; users = w.users }

accepted :
    (t : UnicodeText) (hash_session hash : String → String) (now : ℕ) (locked : Bool)
    (header plaintext : String) (cookie : Option String) (db : Database) (k : ApiToken) (u : User)
    → bearer_token t header ≡ some plaintext
    → find (with_hash (hash plaintext)) db.api_tokens ≡ some k
    → get k.user_id db.users ≡ some u
    → (is_past now k.expires_at || (not u.is_active || u.must_change_password)) ≡ false
    → (get_current_user_or_api_token t hash_session hash now locked (some header) cookie db).0
      ≡ ok u
unfolding get_current_user_or_api_token with_token api_user_of api_user_found
accepted t hash_session hash now locked header plaintext cookie db k u a b c d =
    rw (a, b, c, d) refl

refused :
    (t : UnicodeText) (hash_session hash : String → String) (now : ℕ) (locked : Bool)
    (header plaintext : String) (cookie : Option String) (db : Database)
    → bearer_token t header ≡ some plaintext
    → find (with_hash (hash plaintext)) db.api_tokens ≡ none
    → (get_current_user_or_api_token t hash_session hash now locked (some header) cookie db).0
      ≡ error authentication_error
unfolding get_current_user_or_api_token with_token api_user_of
refused t hash_session hash now locked header plaintext cookie db a b = rw (a, b) refl

both_first : (a b : Bool) → (a && b) ≡ true → a ≡ true
both_first true b h = refl
both_first false b h = h

revoke-tokens :
    (i : ℕ) (u : User) (db : Database) (k : ApiToken)
    → (revoke_api_token i u db).0 ≡ ok k
    → (revoke_api_token i u db).1.api_tokens ≡ delete i db.api_tokens
unfolding revoke_api_token
revoke-tokens i u db k e = go (find (λ x. x.id == i && x.user_id == u.id) db.api_tokens) refl e
  where
    go :
        (o : Option ApiToken)
        → find (λ x. x.id == i && x.user_id == u.id) db.api_tokens ≡ o
        → (revoke_found u o db).0 ≡ ok k
        → (revoke_found u o db).1.api_tokens ≡ delete i db.api_tokens
    go none f e' = cc
    go (some x) f e' =
        ap (λ j. delete j db.api_tokens)
          (eq_of_beq (both_first (x.id == i) (x.user_id == u.id) (find_holds _ db.api_tokens x f)))

-- A header with a token that was created, and whose hash no other token has, signs its owner in until the token expires, if it ever does,
-- while the owner is active and need not change the password. Once the owner has revoked the token, the
-- header is refused, whatever the instant and the cookie beside it.
pub token_signs_in_until_revoked :
    (h : Hasher) (t : UnicodeText) (hash_session hash display : String → String)
    (settings : Settings) (clock : Clock) (now later : ℕ) (locked : Bool)
    (rate_key plaintext header : String) (cookie : Option String) (payload : ApiTokenCreate)
    (u : User) (s s1 : Server) (k k' : ApiToken)
    → create_api_token h hash display settings clock rate_key plaintext payload u s ≡ (ok k, s1)
    → find (with_hash (hash plaintext)) s.db.api_tokens ≡ none
    → bearer_token t header ≡ some plaintext
    → get u.id s.db.users ≡ some u
    → is_past now (api_token_expiration clock.now payload.expires_in_seconds) ≡ false
    → (not u.is_active || u.must_change_password) ≡ false
    → (revoke_api_token k.id u s1.db).0 ≡ ok k'
    → ((get_current_user_or_api_token t hash_session hash now locked (some header) cookie s1.db).0
        ≡ ok u)
      × ((get_current_user_or_api_token t hash_session hash later locked
            (some header)
            cookie
            (revoke_api_token k.id u s1.db).1).0
          ≡ error authentication_error)
token_signs_in_until_revoked h t hash_session hash display settings clock now later locked rate_key
      plaintext header cookie payload u s s1 k k' e fresh sent account unexpired good gone =
    let w : IsCreated hash display clock.now plaintext payload u s k s1 =
      subst (IsCreated hash display clock.now plaintext payload u s k) (ap (λ r. r.1) e) (
        create-IsCreated h hash display settings clock rate_key plaintext payload u s k
          (ap (λ r. r.0) e)) in
    let its_hash : with_hash (hash plaintext) k ≡ true =
      ap (with_hash (hash plaintext)) w.row
      ∙ (string_eq.equal_iff (hash plaintext) (hash plaintext)).1 refl in
    let its_owner : k.user_id ≡ u.id = ap (λ (x : ApiToken). x.user_id) w.row in
    let its_end : is_past now k.expires_at ≡ false =
      ap (λ (x : ApiToken). is_past now x.expires_at) w.row ∙ unexpired in
    (
      accepted t hash_session hash now locked header plaintext cookie s1.db k u sent
          (ap (find (with_hash (hash plaintext))) w.tokens
            ∙ find_last (with_hash (hash plaintext)) s.db.api_tokens k fresh its_hash)
          (rw (its_owner, w.users) account) (rw (its_end, good) refl),
      refused t hash_session hash later locked header plaintext cookie _ sent (
          ap (find (with_hash (hash plaintext)))
            (revoke-tokens k.id u s1.db k' gone ∙ ap (delete k.id) w.tokens)
          ∙ find_deleted (with_hash (hash plaintext)) k.id s.db.api_tokens k fresh refl),
    )
