-- ===== src/Auth/Credentials/Tokens.antt =====
-- auth/dependencies.py: what a bearer token is worth.
use meshive.Prelude.{
  ℕ, String, ◌≡◌, refl, ap, ◌∙◌, Bool, true, false, Option, none, some, List, arith, find, ◌==◌,
  string_eq, get,
}
use meshive.Http.{ok}
use meshive.Models.{User, ApiToken, Database, UnicodeText, user_row}
use meshive.Auth.Credentials.{
  bearer_token, is_past, api_user_found, api_user_of, with_token, get_current_user_or_api_token,
}

abbrev pub token_of : String → List ApiToken → Option ApiToken
token_of token_hash = find (λ k. k.token_hash == token_hash)

-- The token and the user behind an answer to a request with an `Authorization` header.
pub record IsApiUser (t : UnicodeText) (hash : String → String) (now : ℕ) (header : String)
    (db : Database) (u : User) : Type 0 where
  pub raw_token : String
  pub token : ApiToken
  pub sent : bearer_token t header ≡ some raw_token
  pub stored : token_of (hash raw_token) db.api_tokens ≡ some token
  pub owner : get token.user_id db.users ≡ some u
  pub unexpired : is_past now token.expires_at ≡ false
  pub active : u.is_active ≡ true
  pub settled : u.must_change_password ≡ false

module _ (t : UnicodeText) (hash : String → String) (now : ℕ) (locked : Bool) (header : String)
    (db : Database) (u : User) where
  api_found :
      (raw : String) (k : ApiToken) (o : Option User)
      → bearer_token t header ≡ some raw
      → token_of (hash raw) db.api_tokens ≡ some k
      → get k.user_id db.users ≡ o
      → (api_user_found now locked k o db).0 ≡ ok u
      → IsApiUser t hash now header db u
  unfolding api_user_found
  api_found raw k none s e f h = cc
  api_found raw k (some v) s e f h =
      let same : v ≡ u = ground arith in
      record {
        raw_token = raw;
        token = k;
        sent = s;
        stored = e;
        owner = f ∙ ap some same;
        unexpired = ground arith;
        active = ground arith;
        settled = ground arith;
      }

  api_of :
      (raw : String) (o : Option ApiToken)
      → bearer_token t header ≡ some raw
      → token_of (hash raw) db.api_tokens ≡ o
      → (api_user_of now locked o db).0 ≡ ok u
      → IsApiUser t hash now header db u
  unfolding api_user_of
  api_of raw none s e h = cc
  api_of raw (some k) s e h = api_found raw k (get k.user_id db.users) s e refl h

  api_sent :
      (o : Option String)
      → bearer_token t header ≡ o
      → (with_token hash now locked o db).0 ≡ ok u
      → IsApiUser t hash now header db u
  unfolding with_token
  api_sent none s h = cc
  api_sent (some raw) s h = api_of raw (token_of (hash raw) db.api_tokens) s refl h

-- If a request with an `Authorization` header is let in, then the header is a bearer token that is
-- stored and has not expired, and the user is its owner, is active and need not change the password.
-- The session cookie counts for nothing then.
pub bearer_sound :
    (t : UnicodeText) (hash_session hash_api : String → String) (now : ℕ) (locked : Bool)
    (header : String) (cookie : Option String) (db : Database) (u : User)
    → (get_current_user_or_api_token t hash_session hash_api now locked (some header) cookie db).0
      ≡ ok u
    → IsApiUser t hash_api now header db u
unfolding get_current_user_or_api_token
bearer_sound t hash_session hash_api now locked header cookie db u h =
    api_sent t hash_api now locked header db u (bearer_token t header) refl h
