-- ===== src/ShareLinks/Tests.antt =====
-- A link to the catalogue of an administrator, which is used and then revoked.
use meshive.Prelude.{
  ℕ, String, ◌≡◌, refl, Bool, true, none, some, [], ◌∷◌, arith, string_eq, nat_eq, lookup, get,
}
use meshive.Http.{ok, error}
use meshive.Models.{User, Role}
use meshive.Auth.RateLimit.{retry_after, check_and_record, record_unless}
use meshive.Auth.Access.{get_access_context}
use meshive.SignIn.Tests.{plain, same, settings, ann, server, at}
use meshive.ShareLinks.{
  CatalogueShareLink, CatalogueShareLinkCreate, Shares, new_link, stamped,
  create_catalogue_share_link, revoke_catalogue_share_link, share_owner, share_link_not_found,
}
use meshive.ShareLinks.Owners.{IsOpen, share_owner-IsOpen}
use meshive.ShareLinks.Opened.{link_opens_until_revoked}

abbrev boss : User
boss = record ann { role_id = some 1 }

abbrev chief : Role
chief = record {
  id = 1;
  name = "Administrator";
  normalized_name = "administrator";
  description = none;
  is_system = true;
  is_superuser = true;
  permissions = [];
}

abbrev shares : Shares
shares = record {
  db = record server.db { users = boss ∷ []; roles = chief ∷ [] };
  share_links = [];
  requests = [];
  recoveries = [];
}

abbrev payload : CatalogueShareLinkCreate
payload = record { name = "friends"; current_password = "pw"; expires_in_seconds = 3600 }

abbrev always : String → Bool
always token = true

abbrev key : ℕ → String
key i = "1"

abbrev link : CatalogueShareLink
link = new_link same same 5 "msh_share_x" payload boss shares

abbrev created : Shares
created =
    (create_catalogue_share_link plain same same settings (at 5) "k" "msh_share_x" payload boss
      shares).1

link_opens_until_revoked_example :
    ((share_owner same always key (at 9) true "msh_share_x" created).0
      ≡ ok (stamped 9 true link, boss))
    × ((share_owner same always key
          (at 20)
          true
          "msh_share_x"
          (revoke_catalogue_share_link link.id boss created).1).0
        ≡ error share_link_not_found)
unfolding create_catalogue_share_link revoke_catalogue_share_link get_access_context retry_after
    lookup check_and_record get
link_opens_until_revoked_example =
    link_opens_until_revoked plain same same always key settings (at 5) (at 9) (at 20) true "k"
      "msh_share_x" payload boss shares created link link refl refl refl (omega arith) refl refl
      refl refl refl

share_owner-IsOpen_example :
    IsOpen same always (at 9) "msh_share_x" (record shares { share_links = link ∷ [] }) boss
unfolding share_owner get_access_context check_and_record record_unless retry_after lookup get
share_owner-IsOpen_example =
    share_owner-IsOpen same always key (at 9) true "msh_share_x"
      (record shares { share_links = link ∷ [] }) (stamped 9 true link) boss refl
