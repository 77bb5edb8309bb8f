-- ===== src/SignIn/Tests.antt =====
-- A server with two accounts, and requests to it.
use meshive.Prelude.{
  get, ℕ, ◌*◌, ◌≤◌, String, ◌≡◌, ◌≢◌, refl, true, false, none, some, List, [], ◌∷◌, arith, count,
  ◌==◌, string_eq, nat_eq, lookup,
}
use mathlib.Core.Bool.{false≢true}
use meshive.Http.{Response, ok, error}
use meshive.Models.{User, user, UnicodeText, user_row}
use meshive.Auth.RateLimit.{retry_after, second}
use meshive.Auth.RateLimit.Window.{in_window}
use meshive.Auth.Credentials.{get_current_user}
use meshive.Users.{normalize_username}
use meshive.SignIn.{
  Server, Settings, Hasher, Clock, get_user_by_username, login_as, login_unless, login,
  change_checked, change_unless, change_password,
}
use meshive.SignIn.Guesses.{Guess, checked, guesses_bounded}
use meshive.SignIn.Cookies.{login_cookie}
use meshive.SignIn.Passwords.{IsChanged, change_password-IsChanged}

abbrev pub plain : Hasher
plain = record { hash_password = λ p. p; verify_password = λ p h. p == h; dummy_hash = "" }

abbrev pub ascii : UnicodeText
ascii = record { strip = λ s. s; casefold = λ s. s; nfkc = λ s. s }

abbrev pub same : String → String
same s = s

abbrev pub settings : Settings
settings = record {
  auth_rate_limit_attempts = 2;
  auth_rate_limit_window_seconds = 60;
  session_lifetime_days = 7;
  email_delivery_enabled = true;
  password_reset_lifetime_minutes = 30;
  email_verification_lifetime_hours = 24;
  setup_token = none;
}

abbrev pub ann : User
ann = record {
  id = 3;
  username = "ann";
  normalized_username = "ann";
  email = some "a@x";
  normalized_email = some "a@x";
  email_verified_at = some 1;
  password_hash = "pw";
  role = user;
  role_id = none;
  all_sources = false;
  is_active = true;
  must_change_password = false;
  library_source_grants = [];
}

abbrev pub server : Server
server = record {
  db = record {
    users = ann ∷ [];
    roles = [];
    sources = [];
    sessions = record { token_hash = "old"; user_id = 3; expires_at = 100; last_used_at = 0 } ∷ [];
    api_tokens = [];
    action_tokens = [];
    audit = [];
  };
  logins = [];
  recoveries = [];
  setups = [];
}

abbrev pub at : ℕ → Clock
at t = record { asked = t * second; recorded = t * second; now = t }

abbrev guesses : List Guess
guesses =
    record { clock = at 1; raw_token = "t"; password = "x" }
    ∷ record { clock = at 2; raw_token = "t"; password = "y" }
    ∷ record { clock = at 3; raw_token = "t"; password = "z" }
    ∷ []

guesses_bounded_example :
    count (in_window 60 (10 * second)) (checked plain ascii same settings "ann" [] guesses server).0
    ≤ 2
unfolding lookup get_user_by_username normalize_username
guesses_bounded_example =
    guesses_bounded plain ascii same settings "ann" guesses server (10 * second) (omega arith) refl
      (refl, (refl, (refl, tt))) (omega arith) (omega arith)

is_filled : ◌≢◌ {A = String} "secret" ""
is_filled e = false≢true ((string_eq.equal_iff "secret" "").1 e)

login_cookie_example :
    (get_current_user same 50 false
      (some "secret")
      (login plain ascii same settings (at 5) "secret" "ann" "pw" server).1.db).0
    ≡ ok ann
unfolding login login_unless login_as get_user_by_username normalize_username retry_after lookup
login_cookie_example =
    login_cookie plain ascii same settings (at 5) "secret" "ann" "pw" server ann 50 false refl
      is_filled refl (tt, tt) refl (omega arith)

abbrev key : ℕ → String
key i = "current-password:3"

abbrev changed : Response User → User
changed (ok u) = u
changed (error e) = ann

change_password-IsChanged_example :
    IsChanged plain same
      (some "secret")
      "pw"
      "new"
      ann
      (record ann { password_hash = "new" })
      server.db
      (change_password plain same settings (at 5) key (some "secret") "pw" "new" ann server).1.db
unfolding change_password change_unless change_checked retry_after lookup get
change_password-IsChanged_example =
    change_password-IsChanged plain same settings (at 5) key (some "secret") "pw" "new" ann
      (record ann { password_hash = "new" }) ann server refl refl
