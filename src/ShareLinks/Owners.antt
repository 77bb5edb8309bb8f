-- ===== src/ShareLinks/Owners.antt =====
-- `_share_owner` of backend/meshive/api/catalogue_share_links.py: whose catalogue a token opens.
use meshive.Prelude.{
  ℕ, String, ◌≡◌, refl, inl, inr, Bool, true, false, not, ◌||◌, Option, none, some, arith,
  Bool-cases, leb, find, ◌==◌, string_eq, nat_eq, get,
}
use meshive.Http.{ok, Holds, Holds-ok}
use meshive.Models.{User, user_row}
use meshive.Auth.RateLimit.{check_and_record}
use meshive.Auth.Permissions.{catalogue_view}
use meshive.SignIn.{Clock}
use meshive.ShareLinks.{
  CatalogueShareLink, Shares, has_permission, share_unless, share_owned, share_found, share_owner,
}

-- The link of a token that was let in, and its owner.
pub record IsOpen (hash : String → String) (has_prefix : String → Bool) (clock : Clock)
    (token : String) (s : Shares) (owner : User) : Type 0 where
  pub link : CatalogueShareLink
  pub prefixed : has_prefix token ≡ true
  pub stored : find (λ l. l.token_hash == hash token) s.share_links ≡ some link
  pub unexpired : leb link.expires_at clock.now ≡ false
  pub account : get link.user_id s.db.users ≡ some owner
  pub active : owner.is_active ≡ true
  pub settled : owner.must_change_password ≡ false
  pub permitted : has_permission catalogue_view owner s ≡ true

module _ (hash : String → String) (has_prefix : String → Bool) (key : ℕ → String) (clock : Clock)
    (commits : Bool) (token : String) (s : Shares) where
  unless-Holds :
      (l : CatalogueShareLink) (owner : User) (P : User → Type 0) (wait : Option ℕ) (s' : Shares)
      → P owner
      → Holds (λ r. P r.1) (share_unless clock.now commits l owner wait s').0
  unfolding share_unless
  unless-Holds l owner P (some w) s' h = tt
  unless-Holds l owner P none s' h = h

  owned-Holds :
      (l : CatalogueShareLink) (o : Option User)
      → has_prefix token ≡ true
      → find (λ l. l.token_hash == hash token) s.share_links ≡ some l
      → leb l.expires_at clock.now ≡ false
      → get l.user_id s.db.users ≡ o
      → Holds
          (λ r. IsOpen hash has_prefix clock token s r.1)
          (share_owned key clock commits l o s).0
  unfolding share_owned
  owned-Holds l none prefixed stored unexpired e = tt
  owned-Holds l (some owner) prefixed stored unexpired e =
      elim (Bool-cases (not owner.is_active || owner.must_change_password)) [
        | inl q ↦ rw q tt
        | inr q ↦ elim (Bool-cases (has_permission catalogue_view owner s)) [
          | inl p ↦
              (let r = check_and_record (key l.id) 120 60 clock.asked clock.recorded s.requests in
                rw (q, p)
                  (unless-Holds l owner (IsOpen hash has_prefix clock token s) r.0
                    (record s { requests = r.1 })
                    (record {
                      link = l;
                      prefixed = prefixed;
                      stored = stored;
                      unexpired = unexpired;
                      account = e;
                      active = ground arith;
                      settled = ground arith;
                      permitted = p;
                    })))
          | inr p ↦ rw (q, p) tt
        ]
      ]

  found-Holds :
      (o : Option CatalogueShareLink)
      → has_prefix token ≡ true
      → find (λ l. l.token_hash == hash token) s.share_links ≡ o
      → Holds (λ r. IsOpen hash has_prefix clock token s r.1) (share_found key clock commits o s).0
  unfolding share_found
  found-Holds none prefixed e = tt
  found-Holds (some l) prefixed e = elim (Bool-cases (leb l.expires_at clock.now)) [
    | inl q ↦ rw q tt
    | inr q ↦ rw q (owned-Holds l (get l.user_id s.db.users) prefixed e q refl)
  ]

  owner-Holds :
      Holds
        (λ r. IsOpen hash has_prefix clock token s r.1)
        (share_owner hash has_prefix key clock commits token s).0
  unfolding share_owner
  owner-Holds = elim (Bool-cases (has_prefix token)) [
    | inl q ↦ rw q (found-Holds (find (λ l. l.token_hash == hash token) s.share_links) q refl)
    | inr q ↦ rw q tt
  ]

-- A token is let in only as the owner of a stored link with its hash that has not expired; the owner is
-- active, need not change the password, and may view the catalogue.
pub share_owner-IsOpen :
    (hash : String → String) (has_prefix : String → Bool) (key : ℕ → String) (clock : Clock)
    (commits : Bool) (token : String) (s : Shares) (l : CatalogueShareLink) (owner : User)
    → (share_owner hash has_prefix key clock commits token s).0 ≡ ok (l, owner)
    → IsOpen hash has_prefix clock token s owner
share_owner-IsOpen hash has_prefix key clock commits token s l owner e =
    Holds-ok (λ r. IsOpen hash has_prefix clock token s r.1) _
      (owner-Holds hash has_prefix key clock commits token s) e
