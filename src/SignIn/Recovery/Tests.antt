-- ===== src/SignIn/Recovery/Tests.antt =====
-- A request for a link, and the link.
use meshive.Prelude.{
  String, ◌≡◌, refl, false, none, some, [], ◌∷◌, arith, string_eq, nat_eq, lookup, get,
}
use meshive.Http.{ok}
use meshive.Models.{Database, user_row}
use meshive.Auth.RateLimit.{retry_after}
use meshive.SignIn.{Server}
use meshive.SignIn.Tests.{plain, ascii, same, settings, ann, server, at}
use meshive.SignIn.Recovery.{
  find_action_token, password_reset, get_user_by_recovery_identifier, or_named, same_email,
  expired_removed, reset_requested, request_unless, request_password_reset, reset_found, reset_of,
  reset_password,
}
use meshive.SignIn.Recovery.Links.{IsReset, reset_password-IsReset, request_tells_nothing}
use meshive.SignIn.Recovery.RoundTrip.{link_resets}

abbrev key : String → String
key identifier = "password-reset"

abbrev nobody : Server
nobody = record server { db = record server.db { users = [] } }

request_tells_nothing_example :
    (request_password_reset ascii same settings (at 5) key "link" "a@x" server).0
    ≡ (request_password_reset ascii same settings (at 5) key "link" "a@x" nobody).0
request_tells_nothing_example =
    request_tells_nothing ascii same settings (at 5) key "link" "a@x" server nobody refl

link_resets_example :
    let r =
      reset_password plain same 60 "link" "new"
        (request_password_reset ascii same settings (at 5) key "link" "a@x" server).2.db in
    (r.0 ≡ ok (record ann { password_hash = "new"; must_change_password = false }))
    × (get 3 r.1.users ≡ some (record ann { password_hash = "new"; must_change_password = false }))
unfolding request_password_reset request_unless reset_requested get_user_by_recovery_identifier
    same_email or_named retry_after lookup find_action_token expired_removed
link_resets_example =
    link_resets plain ascii same settings (at 5) key "link" "a@x" "new" server ann 60 (tt, tt) refl
      refl (omega arith) refl

abbrev linked : Database
linked = record server.db {
  action_tokens =
      record {
        token_hash = "link";
        user_id = 3;
        purpose = password_reset;
        email = none;
        expires_at = 90;
      }
      ∷ [];
}

reset_password-IsReset_example :
    IsReset plain same 60 "link" "new" linked
      (record ann { password_hash = "new" })
      (reset_password plain same 60 "link" "new" linked).1
unfolding reset_password reset_of reset_found find_action_token get
reset_password-IsReset_example =
    reset_password-IsReset plain same 60 "link" "new" linked (record ann { password_hash = "new" })
      refl
