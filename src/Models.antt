-- ===== src/Models.antt =====
-- backend/meshive/models: the rows of the database that the modelled code reads and writes.
-- Instants are microseconds since an epoch, as `utc_now` gives them, and a foreign key is a number.
use meshive.Prelude.{ℕ, String, Bool, Option, List, Row}

-- `Role` of models/authorization.py, with its `RolePermission` rows.
pub record Role : Type 0 where
  pub id : ℕ
  pub name : String
  pub normalized_name : String
  pub description : Option String
  pub is_system : Bool
  pub is_superuser : Bool
  pub permissions : List String

-- The values of `User.role`.
pub data LegacyRole : Type 0 where
  admin user : LegacyRole

-- `User` of models/user.py, with its `UserLibrarySource` rows. Its sessions and tokens are tables
-- of their own.
pub record User : Type 0 where
  pub id : ℕ
  pub username : String
  pub normalized_username : String
  pub email : Option String
  pub normalized_email : Option String
  pub email_verified_at : Option ℕ
  pub password_hash : String
  pub role : LegacyRole
  pub role_id : Option ℕ
  pub all_sources : Bool
  pub is_active : Bool
  pub must_change_password : Bool
  pub library_source_grants : List ℕ

-- `UserSession` of models/session.py
pub record UserSession : Type 0 where
  pub token_hash : String
  pub user_id : ℕ
  pub expires_at : ℕ
  pub last_used_at : ℕ

-- `ApiToken` of models/api_token.py
pub record ApiToken : Type 0 where
  pub id : ℕ
  pub user_id : ℕ
  pub name : String
  pub token_hash : String
  pub token_prefix : String
  pub expires_at : Option ℕ
  pub last_used_at : Option ℕ

-- `UserActionToken` of models/user_token.py
pub record UserActionToken : Type 0 where
  pub token_hash : String
  pub user_id : ℕ
  pub purpose : String
  pub email : Option String
  pub expires_at : ℕ

-- `LibrarySource` of models/library_source.py
pub record LibrarySource : Type 0 where
  pub id : ℕ
  pub name : String
  pub is_active : Bool
  pub scan_enabled : Bool
  pub auto_scan_enabled : Bool

-- `LibraryModel` of models/catalog.py
pub record LibraryModel : Type 0 where
  pub id : ℕ
  pub library_source_id : ℕ
  pub name : String
  pub relative_path : String

-- `ScanRun.status`
pub data ScanStatus : Type 0 where
  pending running completed completed_with_errors failed cancelled : ScanStatus

-- `ScanRun.trigger`
pub data ScanTrigger : Type 0 where
  manual scheduled model_rescan model_image_rebuild : ScanTrigger

-- `ScanRun.mode`
pub data ScanMode : Type 0 where
  full missing_images incremental smart reconcile_images : ScanMode

-- `ScanRun` of models/catalog.py
pub record ScanRun : Type 0 where
  pub id : ℕ
  pub library_source_id : ℕ
  pub status : ScanStatus
  pub cancel_requested : Bool
  pub pause_requested : Bool
  pub trigger : ScanTrigger
  pub mode : ScanMode
  pub target_model_id : Option ℕ
  pub target_model_name : Option String
  pub created_at : ℕ
  pub started_at : Option ℕ
  pub finished_at : Option ℕ
  pub error_message : Option String

-- `AuditEvent` of models/audit.py
pub record AuditEvent : Type 0 where
  pub actor_id : ℕ
  pub action : String
  pub target_type : String
  pub target_label : String
  pub target_id : Option ℕ

-- The tables that the user, role and session handlers touch. A handler that raises leaves them as
-- they were: what it has written is rolled back with its session.
pub record Database : Type 0 where
  pub users : List User
  pub roles : List Role
  pub sources : List LibrarySource
  pub sessions : List UserSession
  pub api_tokens : List ApiToken
  pub action_tokens : List UserActionToken
  pub audit : List AuditEvent

-- What the code uses of Python's Unicode tables.
pub record UnicodeText : Type 0 where
  pub strip : String → String
  pub casefold : String → String
  pub nfkc : String → String

instance abbrev pub role_row : Row Role
role_row = record { key = λ r. r.id }

instance abbrev pub user_row : Row User
user_row = record { key = λ u. u.id }

instance abbrev pub api_token_row : Row ApiToken
api_token_row = record { key = λ k. k.id }

instance abbrev pub source_row : Row LibrarySource
source_row = record { key = λ s. s.id }

instance abbrev pub model_row : Row LibraryModel
model_row = record { key = λ m. m.id }

instance abbrev pub scan_row : Row ScanRun
scan_row = record { key = λ s. s.id }
