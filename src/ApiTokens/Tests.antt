-- ===== src/ApiTokens/Tests.antt =====
-- A token that is created, sent in a header, and revoked.
use meshive.Prelude.{◌≡◌, refl, false, none, some, string_eq, nat_eq, lookup, get}
use meshive.Http.{ok, error}
use meshive.Models.{ApiToken}
use meshive.Auth.RateLimit.{retry_after}
use meshive.Auth.Credentials.{
  partition_space, bearer_token, get_current_user_or_api_token, authentication_error,
}
use meshive.SignIn.{Server}
use meshive.SignIn.Tests.{plain, ascii, same, settings, ann, server, at}
use meshive.ApiTokens.{
  ApiTokenCreate, api_token_expiration, new_token, create_api_token, revoke_api_token,
}
use meshive.ApiTokens.Bearer.{token_signs_in_until_revoked}

abbrev payload : ApiTokenCreate
payload = record { name = "reader"; current_password = "pw"; expires_in_seconds = none }

abbrev token : ApiToken
token = new_token same same 5 "msh_pat_x" payload ann server.db

abbrev created : Server
created = (create_api_token plain same same settings (at 5) "k" "msh_pat_x" payload ann server).1

token_signs_in_until_revoked_example :
    ((get_current_user_or_api_token ascii same same 9 false
        (some "bearer msh_pat_x")
        none
        created.db).0
      ≡ ok ann)
    × ((get_current_user_or_api_token ascii same same 20 false
          (some "bearer msh_pat_x")
          none
          (revoke_api_token token.id ann created.db).1).0
        ≡ error authentication_error)
unfolding create_api_token revoke_api_token retry_after lookup partition_space bearer_token get
    api_token_expiration
token_signs_in_until_revoked_example =
    token_signs_in_until_revoked plain ascii same same same settings (at 5) 9 20 false "k"
      "msh_pat_x" "bearer msh_pat_x" none payload ann server created token token refl refl refl refl
      refl refl refl
