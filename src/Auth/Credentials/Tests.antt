-- ===== src/Auth/Credentials/Tests.antt =====
-- A session, and what its cookie is answered.
use mathlib.Core.Bool.{false≢true}
use meshive.Prelude.{
  some-injective, String, ◌≡◌, ◌≢◌, refl, true, false, none, some, [], ◌∷◌, arith, string_eq,
  nat_eq, get,
}
use meshive.Http.{ok}
use meshive.Models.{User, UserSession, Database, user, user_row, ApiToken, UnicodeText}
use meshive.Auth.Credentials.{
  get_current_session, get_current_user, get_current_user_or_api_token, bearer_token,
  partition_space,
}
use meshive.Auth.Credentials.Tokens.{IsApiUser, bearer_sound}
use meshive.Auth.Credentials.Sessions.{
  IsSignedIn, get_current_user_sound, get_current_user_complete,
}

abbrev same : String → String
same s = s

abbrev member : User
member = record {
  id = 3;
  username = "m";
  normalized_username = "m";
  email = none;
  normalized_email = none;
  email_verified_at = none;
  password_hash = "h";
  role = user;
  role_id = none;
  all_sources = false;
  is_active = true;
  must_change_password = false;
  library_source_grants = [];
}

abbrev session : UserSession
session = record { token_hash = "secret"; user_id = 3; expires_at = 100; last_used_at = 5 }

abbrev db : Database
db = record {
  users = member ∷ [];
  roles = [];
  sources = [];
  sessions = session ∷ [];
  api_tokens = [];
  action_tokens = [];
  audit = [];
}

is_filled : ◌≢◌ {A = String} "secret" ""
is_filled e = false≢true ((string_eq.equal_iff "secret" "").1 e)

abbrev signed_in : IsSignedIn same 50 (some "secret") db member
unfolding get
signed_in = record {
  raw_token = "secret";
  session = session;
  sent = refl;
  stored = refl;
  owner = refl;
  unexpired = omega arith;
  active = refl;
  settled = refl;
}

get_current_user_sound_example : IsSignedIn same 50 (some "secret") db member
unfolding get_current_user get_current_session get
get_current_user_sound_example = get_current_user_sound same 50 false (some "secret") db member refl

get_current_user_complete_example :
    (get_current_user same 50 false (some "secret") db).0 ≡ ok member
get_current_user_complete_example =
    get_current_user_complete same 50 false (some "secret") db member signed_in
      λ e. is_filled (some-injective e)

abbrev ascii : UnicodeText
ascii = record { strip = λ s. s; casefold = λ s. s; nfkc = λ s. s }

abbrev token : ApiToken
token = record {
  id = 1;
  user_id = 3;
  name = "reader";
  token_prefix = "msh_pat_x";
  token_hash = "msh_pat_x";
  expires_at = some 100;
  last_used_at = none;
}

abbrev with_token_row : Database
with_token_row = record db { api_tokens = token ∷ [] }

-- The scheme is told from the token by the first space.
partition_space_test : partition_space "bearer msh_pat_x y" ≡ ("bearer", true, "msh_pat_x y")
unfolding partition_space
partition_space_test = refl

bearer_sound_example : IsApiUser ascii same 50 "bearer msh_pat_x" with_token_row member
unfolding get_current_user_or_api_token bearer_token partition_space get
bearer_sound_example =
    bearer_sound ascii same same 50 false "bearer msh_pat_x" (some "other") with_token_row member
      refl
