-- ===== src/Access.antt =====
-- Who may do what: backend/internal/notty/role.go, with the context of a request as auth.go declares
-- it, and the identifiers of identifier.go.
use Prim.Native.Nat.{ℕ}
use Prim.Native.Char.{Char, code}
use Prim.Native.String.{String, len}
use codesk.Common.{
  Bool, true, false, not, ◌&&◌, ◌||◌, Option, none, some, List, [], ◌∷◌, String_key, ◌==◌,
  if◌then◌else◌, ltb, leb, eqb,
}
use codesk.Common.Dict.{Dict, lookup, contains}
pub mod Ranks
mod Tests

abbrev pub membership_role_owner : String
membership_role_owner = "owner"

abbrev pub membership_role_admin : String
membership_role_admin = "admin"

abbrev pub membership_role_member : String
membership_role_member = "member"

abbrev pub action_invite_members : String
action_invite_members = "invite_members"

abbrev pub action_manage_roles : String
action_manage_roles = "manage_roles"

abbrev pub action_manage_agents : String
action_manage_agents = "manage_agents"

abbrev pub action_manage_daemons : String
action_manage_daemons = "manage_daemons"

abbrev pub action_edit_documents : String
action_edit_documents = "edit_documents"

abbrev pub action_delete_workspace : String
action_delete_workspace = "delete_workspace"

abbrev pub action_manage_workspace : String
action_manage_workspace = "manage_workspace"

abbrev only_owner : List String
only_owner = membership_role_owner ∷ []

abbrev up_to_admin : List String
up_to_admin = membership_role_owner ∷ membership_role_admin ∷ []

abbrev up_to_member : List String
up_to_member = membership_role_owner ∷ membership_role_admin ∷ membership_role_member ∷ []

unfoldable pub role_permissions : Dict String (List String)
role_permissions =
    (action_invite_members, up_to_admin)
    ∷ (action_manage_roles, only_owner)
    ∷ (action_manage_agents, up_to_admin)
    ∷ (action_manage_daemons, up_to_admin)
    ∷ (action_edit_documents, up_to_member)
    ∷ (action_delete_workspace, only_owner)
    ∷ (action_manage_workspace, up_to_admin)
    ∷ []

-- True where the method returns no error.
unfoldable pub validate_membership_role : String → Bool
validate_membership_role role =
    (membership_role_owner == role)
    || (membership_role_admin == role)
    || (membership_role_member == role)

abbrev pub allows : String → Option (List String) → Bool
allows role none = false
allows role (some allowed) = contains role allowed

unfoldable pub role_can_perform : String → String → Bool
role_can_perform role action = allows role (lookup action role_permissions)

pub record AuthContext : Type 0 where
  pub workspace_id : String
  pub principal_id : String
  pub principal_kind : String
  pub account_id : String
  pub user_id : String
  pub user_handle : String
  pub user_name : String
  pub membership_role : String
  pub daemon_id : String
  pub acting_agent_id : String
  pub acting_agent_ref : String

pub data Permission : Type 0 where
  permitted authentication_required insufficient_permissions : Permission

unfoldable pub require_permission : Option AuthContext → String → Permission
require_permission none action = authentication_required
require_permission (some auth) action =
    if auth.principal_kind == "daemon"
    then permitted
    else if not (role_can_perform auth.membership_role action)
    then insufficient_permissions
    else permitted

-- ^[a-z0-9_-]+$
abbrev pub is_identifier_char : Char → Bool
is_identifier_char c =
    let n = code c in (leb 97 n && leb n 122) || (leb 48 n && leb n 57) || eqb n 95 || eqb n 45

unfoldable pub all_identifier_chars : String → Bool
all_identifier_chars String.[] = true
all_identifier_chars (String.◌∷◌ c s) = is_identifier_char c && all_identifier_chars s

pub data Validated : Type 0 where
  valid : String → Validated
  is_required wrong_length wrong_characters : Validated

unfoldable pub validate_identifier : String → ℕ → ℕ → Validated
validate_identifier value min_len max_len =
    if value == ""
    then is_required
    else if ltb (len value) min_len || ltb max_len (len value)
    then wrong_length
    else if not (all_identifier_chars value)
    then wrong_characters
    else valid value

unfoldable pub validate_workspace_slug : String → Validated
validate_workspace_slug value = validate_identifier value 2 64

unfoldable pub validate_handle : String → Validated
validate_handle value = validate_identifier value 2 32
