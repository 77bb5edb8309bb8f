-- ===== src/Auth/Permissions.antt =====
-- backend/meshive/auth/permissions.py: the permission keys and the roles that ship with them.
-- A `frozenset` is the list of its elements.
use meshive.Prelude.{String, Bool, true, false, List, [], ◌∷◌, ◌++◌}

abbrev pub catalogue_view : String
catalogue_view = "catalogue.view"

abbrev pub catalogue_view_maintenance : String
catalogue_view_maintenance = "catalogue.view_maintenance"

abbrev pub archives_view_entries : String
archives_view_entries = "archives.view_entries"

abbrev pub archives_download : String
archives_download = "archives.download"

abbrev pub favorites_manage : String
favorites_manage = "favorites.manage"

abbrev pub models_primary_image : String
models_primary_image = "models.primary_image"

abbrev pub models_tags : String
models_tags = "models.tags"

abbrev pub models_rescan : String
models_rescan = "models.rescan"

abbrev pub models_rebuild_images : String
models_rebuild_images = "models.rebuild_images"

abbrev pub models_reset_images : String
models_reset_images = "models.reset_images"

abbrev pub models_delete_missing : String
models_delete_missing = "models.delete_missing"

abbrev pub scans_view : String
scans_view = "scans.view"

abbrev pub scans_start : String
scans_start = "scans.start"

abbrev pub scans_control : String
scans_control = "scans.control"

abbrev pub metadata_manage : String
metadata_manage = "metadata.manage"

abbrev pub tags_manage : String
tags_manage = "tags.manage"

abbrev pub tag_rules_manage : String
tag_rules_manage = "tag_rules.manage"

abbrev pub sources_manage : String
sources_manage = "sources.manage"

abbrev pub diagnostics_view : String
diagnostics_view = "diagnostics.view"

abbrev pub backups_manage : String
backups_manage = "backups.manage"

abbrev pub users_manage : String
users_manage = "users.manage"

abbrev pub roles_manage : String
roles_manage = "roles.manage"

abbrev pub audit_view : String
audit_view = "audit.view"

abbrev pub api_tokens_manage_own : String
api_tokens_manage_own = "api_tokens.manage_own"

abbrev pub catalogue_share_links_manage_own : String
catalogue_share_links_manage_own = "catalogue_share_links.manage_own"

abbrev pub all_permission_keys : List String
all_permission_keys =
    catalogue_view ∷ catalogue_view_maintenance ∷ archives_view_entries ∷ archives_download
    ∷ favorites_manage ∷ models_primary_image ∷ models_tags ∷ models_rescan ∷ models_rebuild_images
    ∷ models_reset_images ∷ models_delete_missing ∷ scans_view ∷ scans_start ∷ scans_control
    ∷ metadata_manage ∷ tags_manage ∷ tag_rules_manage ∷ sources_manage ∷ diagnostics_view
    ∷ backups_manage ∷ users_manage ∷ roles_manage ∷ audit_view ∷ api_tokens_manage_own
    ∷ catalogue_share_links_manage_own ∷ []

-- `SystemRoleDefinition`
pub record SystemRoleDefinition : Type 0 where
  pub name : String
  pub description : String
  pub permission_keys : List String
  pub is_superuser : Bool

abbrev pub viewer_permissions : List String
viewer_permissions = catalogue_view ∷ archives_view_entries ∷ favorites_manage ∷ []

abbrev pub member_permissions : List String
member_permissions = viewer_permissions ++ archives_download ∷ []

abbrev pub curator_permissions : List String
curator_permissions =
    member_permissions
    ++ (models_primary_image ∷ models_tags ∷ metadata_manage ∷ tags_manage ∷ tag_rules_manage ∷ [])

abbrev pub operator_permissions : List String
operator_permissions =
    member_permissions
    ++ (catalogue_view_maintenance ∷ models_rescan ∷ models_rebuild_images ∷ models_reset_images
        ∷ models_delete_missing ∷ scans_view ∷ scans_start ∷ scans_control ∷ diagnostics_view ∷ [])

abbrev pub system_role_definitions : List SystemRoleDefinition
system_role_definitions =
    record {
      name = "Viewer";
      description = "View the catalogue without downloads.";
      permission_keys = viewer_permissions;
      is_superuser = false;
    }
    ∷ record {
      name = "Member";
      description = "View and download accessible library content.";
      permission_keys = member_permissions;
      is_superuser = false;
    }
    ∷ record {
      name = "Curator";
      description = "Maintain visible catalogue metadata.";
      permission_keys = curator_permissions;
      is_superuser = false;
    }
    ∷ record {
      name = "Operator";
      description = "Operate scans and diagnostics.";
      permission_keys = operator_permissions;
      is_superuser = false;
    }
    ∷ record {
      name = "Administrator";
      description = "Full system administration.";
      permission_keys = all_permission_keys;
      is_superuser = true;
    }
    ∷ []
