-- ===== src/Access/Tests.antt =====
-- Permissions of one member.
use codesk.Common.{◌≡◌, ◌||◌, none, some, String_key, ◌==◌, if◌then◌else◌, leb, ltb}
use codesk.Access.{
  AuthContext, permitted, authentication_required, insufficient_permissions, require_permission,
  validate_membership_role,
}
use codesk.Access.Ranks.{rank, rank_for, require_permission-rank}

abbrev ada : AuthContext
ada = record {
  workspace_id = "w";
  principal_id = "p";
  principal_kind = "user";
  account_id = "a";
  user_id = "u";
  user_handle = "ada";
  user_name = "Ada";
  membership_role = "admin";
  daemon_id = "";
  acting_agent_id = "";
  acting_agent_ref = "";
}

require_permission-rank_example :
    (require_permission none "manage_agents" ≡ authentication_required)
    × (require_permission (some ada) "manage_agents" ≡ (
        if (ada.principal_kind == "daemon")
          || leb (rank_for "manage_agents") (rank ada.membership_role)
        then permitted
        else insufficient_permissions))
    × (validate_membership_role "admin" ≡ ltb 0 (rank "admin"))
require_permission-rank_example = require_permission-rank ada "manage_agents"
