-- ===== src/ShareLinks/Opened.antt =====
-- backend/meshive/api/catalogue_share_links.py: a link that is created, used and revoked.
use mathlib.Core.Path.{subst}
use meshive.Prelude.{
  ℕ, ◌+◌, ◌*◌, ◌<◌, String, ◌≡◌, refl, sym, ap, ◌∙◌, inl, inr, Bool, true, false, not, ◌&&◌, ◌||◌,
  Option, none, some, [], ◌∷◌, ◌++◌, arith, Bool-cases, leb, find, find_last, find_deleted,
  find_holds, ◌==◌, string_eq, nat_eq, eq_of_beq, get, delete,
}
use meshive.Http.{ok, error, ok-injective}
use meshive.Models.{User, user_row}
use meshive.Auth.RateLimit.{retry_after, check_and_record}
use meshive.Auth.Permissions.{catalogue_view, catalogue_share_links_manage_own}
use meshive.SignIn.{Settings, Hasher, Clock}
use meshive.ShareLinks.{
  CatalogueShareLink, CatalogueShareLinkCreate, Shares, share_link_row, has_permission, new_link,
  one_second, stamped, create_unless, create_catalogue_share_link, revoke_found,
  revoke_catalogue_share_link, share_unless, share_owned, share_found, share_owner,
  share_link_not_found,
}

abbrev pub with_hash : String → CatalogueShareLink → Bool
with_hash token_hash l = l.token_hash == token_hash

-- What the creation of a link has written.
record IsCreated (hash display : String → String) (now : ℕ) (token : String)
    (payload : CatalogueShareLinkCreate) (u : User) (s : Shares) (l : CatalogueShareLink)
    (s' : Shares) : Type 0 where
  row : l ≡ new_link hash display now token payload u s
  links : s'.share_links ≡ s.share_links ++ l ∷ []
  users : s'.db.users ≡ s.db.users
  roles : s'.db.roles ≡ s.db.roles
  requests : s'.requests ≡ s.requests

module _ (h : Hasher) (hash display : String → String) (settings : Settings) (clock : Clock)
    (rate_key token : String) (payload : CatalogueShareLinkCreate) (u : User) where
  unless-IsCreated :
      (wait : Option ℕ) (s : Shares) (l : CatalogueShareLink)
      → (create_unless h hash display settings clock rate_key token payload u wait s).0 ≡ ok l
      → IsCreated hash display clock.now token payload u s l
          (create_unless h hash display settings clock rate_key token payload u wait s).1
  unfolding create_unless
  unless-IsCreated (some wait) s l e = cc
  unless-IsCreated none s l e =
      elim (Bool-cases (h.verify_password payload.current_password u.password_hash)) [
        | inl q ↦
            (let same = ok-injective (rw q at e) in
              rw q (record {
                row = sym same;
                links = ap (λ x. s.share_links ++ x ∷ []) same;
                users = refl;
                roles = refl;
                requests = refl;
              }))
        | inr q ↦ cc (rw q at e)
      ]

  create-IsCreated :
      (s : Shares) (l : CatalogueShareLink)
      → (create_catalogue_share_link h hash display settings clock rate_key token payload u s).0
        ≡ ok l
      → IsCreated hash display clock.now token payload u s l
          (create_catalogue_share_link h hash display settings clock rate_key token payload u s).1
  unfolding create_catalogue_share_link
  create-IsCreated s l e = elim (Bool-cases (has_permission catalogue_share_links_manage_own u s)) [
    | inl q ↦
        (let r =
            retry_after rate_key settings.auth_rate_limit_attempts
              settings.auth_rate_limit_window_seconds clock.asked s.recoveries in
          let w = unless-IsCreated r.0 (record s { recoveries = r.1 }) l (rw q at e) in
          rw q (record {
            row = w.row;
            links = w.links;
            users = w.users;
            roles = w.roles;
            requests = w.requests;
          }))
    | inr q ↦ cc (rw q at e)
  ]

beq_text : (a : String) → ◌==◌ {A = String} a a ≡ true
beq_text a = (string_eq.equal_iff a a).1 refl

open_link :
    (hash : String → String) (has_prefix : String → Bool) (key : ℕ → String) (clock : Clock)
    (commits : Bool) (token : String) (s : Shares) (l : CatalogueShareLink) (u : User)
    → has_prefix token ≡ true
    → find (with_hash (hash token)) s.share_links ≡ some l
    → leb l.expires_at clock.now ≡ false
    → get l.user_id s.db.users ≡ some u
    → (not u.is_active || u.must_change_password) ≡ false
    → has_permission catalogue_view u s ≡ true
    → (check_and_record (key l.id) 120 60 clock.asked clock.recorded s.requests).0 ≡ none
    → (share_owner hash has_prefix key clock commits token s).0
      ≡ ok (stamped clock.now commits l, u)
unfolding share_owner share_found share_owned share_unless
open_link hash has_prefix key clock commits token s l u a b c d e f g =
    rw (a, b, c, d, e, f, g) refl

revoked-closed :
    (hash : String → String) (has_prefix : String → Bool) (key : ℕ → String) (clock : Clock)
    (commits : Bool) (token : String) (s : Shares)
    → find (with_hash (hash token)) s.share_links ≡ none
    → (share_owner hash has_prefix key clock commits token s).0 ≡ error share_link_not_found
unfolding share_owner share_found
revoked-closed hash has_prefix key clock commits token s b = elim (Bool-cases (has_prefix token)) [
  | inl q ↦ rw (q, b) refl
  | inr q ↦ rw q refl
]

both_first : (a b : Bool) → (a && b) ≡ true → a ≡ true
both_first true b h = refl
both_first false b h = h

revoke-links :
    (i : ℕ) (u : User) (s : Shares) (l : CatalogueShareLink)
    → (revoke_catalogue_share_link i u s).0 ≡ ok l
    → (revoke_catalogue_share_link i u s).1.share_links ≡ delete i s.share_links
unfolding revoke_catalogue_share_link
revoke-links i u s l e = elim (Bool-cases (has_permission catalogue_share_links_manage_own u s)) [
  | inl q ↦ rw q (go (find (λ x. x.id == i && x.user_id == u.id) s.share_links) refl (rw q at e))
  | inr q ↦ cc (rw q at e)
]
  where
    go :
        (o : Option CatalogueShareLink)
        → find (λ x. x.id == i && x.user_id == u.id) s.share_links ≡ o
        → (revoke_found u o s).0 ≡ ok l
        → (revoke_found u o s).1.share_links ≡ delete i s.share_links
    go none f e' = cc
    go (some x) f e' =
        ap (λ k. delete k s.share_links)
          (eq_of_beq (both_first (x.id == i) (x.user_id == u.id) (find_holds _ s.share_links x f)))

-- A link that was created, with a prefixed token whose hash no other link has, opens the catalogue of its owner until it expires, when the limiter lets the
-- request through, the owner is active, need not change the password and may view the catalogue. Once
-- the owner has revoked it, its token is not found, whatever the instant.
pub link_opens_until_revoked :
    (h : Hasher) (hash display : String → String) (has_prefix : String → Bool) (key : ℕ → String)
    (settings : Settings) (clock seen late : Clock) (commits : Bool) (rate_key token : String)
    (payload : CatalogueShareLinkCreate) (u : User) (s s1 : Shares) (l l' : CatalogueShareLink)
    → create_catalogue_share_link h hash display settings clock rate_key token payload u s
      ≡ (ok l, s1)
    → find (with_hash (hash token)) s.share_links ≡ none
    → has_prefix token ≡ true
    → seen.now < clock.now + payload.expires_in_seconds * one_second
    → get u.id s.db.users ≡ some u
    → (not u.is_active || u.must_change_password) ≡ false
    → has_permission catalogue_view u s ≡ true
    → (check_and_record (key l.id) 120 60 seen.asked seen.recorded s.requests).0 ≡ none
    → (revoke_catalogue_share_link l.id u s1).0 ≡ ok l'
    → ((share_owner hash has_prefix key seen commits token s1).0
        ≡ ok (stamped seen.now commits l, u))
      × ((share_owner hash has_prefix key late commits token
            (revoke_catalogue_share_link l.id u s1).1).0
          ≡ error share_link_not_found)
link_opens_until_revoked h hash display has_prefix key settings clock seen late commits rate_key
      token payload u s s1 l l' e fresh prefixed unexpired account good view free gone =
    let w : IsCreated hash display clock.now token payload u s l s1 =
      subst (IsCreated hash display clock.now token payload u s l) (ap (λ r. r.1) e) (
        create-IsCreated h hash display settings clock rate_key token payload u s l
          (ap (λ r. r.0) e)) in
    let its_hash : with_hash (hash token) l ≡ true = rw w.row (beq_text (hash token)) in
    (
      open_link hash has_prefix key seen commits token s1 l u prefixed
          (ap (find (with_hash (hash token))) w.links
            ∙ find_last (with_hash (hash token)) s.share_links l fresh its_hash)
          (rw w.row (ground arith)) (rw (w.row, w.users) account) good
          (ap (λ r. has_permission catalogue_view u (record s { db = record s.db { roles = r } }))
              w.roles
            ∙ view)
          (rw w.requests free),
      revoked-closed hash has_prefix key late commits token _ (
          ap (find (with_hash (hash token)))
            (revoke-links l.id u s1 l' gone ∙ ap (delete l.id) w.links)
          ∙ find_deleted (with_hash (hash token)) l.id s.share_links l fresh refl),
    )
