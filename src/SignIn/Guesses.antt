-- ===== src/SignIn/Guesses.antt =====
-- `login` of api/auth.py with its limiter: how many passwords can be tried.
use meshive.Prelude.{
  ℕ, ◌≤◌, ◌<◌, String, ◌≡◌, refl, ap, ◌∙◌, Bool, true, false, not, ◌&&◌, Option, none, some, List,
  [], ◌∷◌, ◌++◌, arith, if◌then◌else◌, is_some, count, All, ◌==◌, nat_eq,
}
use meshive.Http.{Response, ok, error}
use meshive.Models.{User, UnicodeText}
use meshive.Auth.RateLimit.{Limiter, retry_after, record_unless, check_and_record}
use meshive.Auth.RateLimit.Window.{attempts_of, in_window}
use meshive.Auth.RateLimit.Promise.{admitted, admitted_bounded, InOrder, final}
use meshive.Users.{normalize_username}
use meshive.SignIn.{
  Server, Settings, Hasher, Clock, get_user_by_username, too_many_sign_ins, invalid_credentials,
  failed_login, login_as, login_unless, login,
}

-- A request to sign in: its instants, the token that it would be given, and the password.
pub record Guess : Type 0 where
  pub clock : Clock
  pub raw_token : String
  pub password : String

-- The password is that of an active account.
abbrev pub holds : Hasher → String → Option User → Bool
holds h password none = false
holds h password (some u) = h.verify_password password u.password_hash && u.is_active

-- The answer says whether the password fits: it is not the one of the limiter.
abbrev pub is_checked : Response User → Bool
is_checked (ok u) = true
is_checked (error e) = not (e.status == 429)

abbrev pub times : List Guess → List (ℕ × ℕ)
times [] = []
times (g ∷ guesses) = (g.clock.asked, g.clock.recorded) ∷ times guesses

counts :
    (b : Bool) (past more : List ℕ)
    → (if is_checked (error (if b then too_many_sign_ins else invalid_credentials))
        then more
        else past)
      ≡ (if b then past else more)
counts true past more = refl
counts false past more = refl

module _ (h : Hasher) (t : UnicodeText) (hash : String → String) (settings : Settings)
    (username : String) where
  -- The instants at which a password was checked, oldest first, beside those of the past.
  unfoldable pub checked : List ℕ → List Guess → Server → List ℕ × Server
  checked past [] s = (past, s)
  checked past (g ∷ guesses) s =
      let (answer, s') = login h t hash settings g.clock g.raw_token username g.password s in
      checked (if is_checked answer then past ++ g.clock.recorded ∷ [] else past) guesses s'

  abbrev of_limiter : Clock → Server → Response User × Server
  of_limiter clock s =
      let r =
        check_and_record (normalize_username t username) settings.auth_rate_limit_attempts
          settings.auth_rate_limit_window_seconds clock.asked clock.recorded s.logins in
      (
        error (if is_some r.0 then too_many_sign_ins else invalid_credentials),
        record s { logins = r.1 },
      )

  wrong_fails :
      (g : Guess) (o : Option User) (s : Server)
      → holds h g.password o ≡ false
      → login_as h hash settings g.clock g.raw_token (normalize_username t username) g.password o s
        ≡ failed_login settings g.clock (normalize_username t username) s
  unfolding login_as
  wrong_fails g none s wrong = refl
  wrong_fails g (some u) s wrong = ground arith

  -- A wrong password does to the limiter just what a request of `check_and_record` does.
  login_of_wrong :
      (g : Guess) (s : Server)
      → holds h g.password (get_user_by_username t username s.db.users) ≡ false
      → login h t hash settings g.clock g.raw_token username g.password s ≡ of_limiter g.clock s
  unfolding login login_unless check_and_record record_unless
  login_of_wrong g s wrong = go (
      retry_after (normalize_username t username) settings.auth_rate_limit_attempts
        settings.auth_rate_limit_window_seconds g.clock.asked s.logins)
    where
      go :
          (p : Option ℕ × Limiter)
          → login_unless h t hash settings g.clock g.raw_token username g.password p.0
              (record s { logins = p.1 })
            ≡ (
              error (
                  if is_some
                    (record_unless p.0
                      (normalize_username t username)
                      settings.auth_rate_limit_window_seconds
                      g.clock.recorded
                      p.1).0
                  then too_many_sign_ins
                  else invalid_credentials),
              record s {
                logins =
                    (record_unless p.0
                      (normalize_username t username)
                      settings.auth_rate_limit_window_seconds
                      g.clock.recorded
                      p.1).1;
              },
            )
      go (some wait, l) = refl
      go (none, l) =
          wrong_fails g (get_user_by_username t username s.db.users) (record s { logins = l }) wrong

  checked-admitted :
      (past : List ℕ) (guesses : List Guess) (s : Server)
      → All (λ g. holds h g.password (get_user_by_username t username s.db.users) ≡ false) guesses
      → (checked past guesses s).0
        ≡ (admitted
            (normalize_username t username)
            settings.auth_rate_limit_attempts
            settings.auth_rate_limit_window_seconds
            past
            (times guesses)
            s.logins).0
  unfolding checked admitted
  checked-admitted past [] s wrong = refl
  checked-admitted past (g ∷ guesses) s wrong =
      let key = normalize_username t username in
      let limit = settings.auth_rate_limit_attempts in
      let w = settings.auth_rate_limit_window_seconds in
      let r = check_and_record key limit w g.clock.asked g.clock.recorded s.logins in
      let more = past ++ g.clock.recorded ∷ [] in
      ap
        (λ (p : Response User × Server).
          (checked (if is_checked p.0 then more else past) guesses p.1).0)
        (login_of_wrong g s wrong.0)
      ∙ checked-admitted
          (if is_checked (error (if is_some r.0 then too_many_sign_ins else invalid_credentials))
            then more
            else past)
          guesses (record s { logins = r.1 }) wrong.1
      ∙ ap (λ past'. (admitted key limit w past' (times guesses) r.1).0)
          (counts (is_some r.0) past more)

-- Let requests to sign in under one name come one after the other, all of them with a password that is
-- wrong for the name's account or for an account that is disabled or not there: none begins before the
-- one before it has ended, the clock does not go back, and no other request comes between. If the
-- limiter holds nothing for the name at first and `auth_rate_limit_attempts` is not 0, then at most so
-- many of the passwords are checked in the window that ends at an instant after the last request.
pub guesses_bounded :
    (h : Hasher) (t : UnicodeText) (hash : String → String) (settings : Settings)
    (username : String) (guesses : List Guess) (s : Server) (until : ℕ)
    → 0 < settings.auth_rate_limit_attempts
    → attempts_of (normalize_username t username) s.logins ≡ []
    → All (λ g. holds h g.password (get_user_by_username t username s.db.users) ≡ false) guesses
    → InOrder 0 (times guesses)
    → final 0 (times guesses) ≤ until
    → count
        (in_window settings.auth_rate_limit_window_seconds until)
        (checked h t hash settings username [] guesses s).0
      ≤ settings.auth_rate_limit_attempts
guesses_bounded h t hash settings username guesses s until positive fresh wrong order late =
    rw (checked-admitted h t hash settings username [] guesses s wrong) (
      admitted_bounded (normalize_username t username) settings.auth_rate_limit_attempts
        settings.auth_rate_limit_window_seconds s.logins (times guesses) until positive fresh order
        late)
