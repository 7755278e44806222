-- ===== src/Access/Ranks.antt =====
-- The table of permissions as an order of the roles.
use Prim.Native.String.{String}
use codesk.Common.{
  ℕ, ◌≡◌, refl, subst, Bool, true, false, not, ◌||◌, none, some, arith, String_key, ◌==◌,
  if◌then◌else◌, leb, ltb, inl, inr, Bool-cases,
}
use codesk.Common.Dict.{lookup, contains}
use codesk.Access.{
  role_permissions, role_can_perform, AuthContext, permitted, authentication_required,
  insufficient_permissions, require_permission, validate_membership_role,
}

-- The rank of a role, and the rank that an action takes.
abbrev pub rank : String → ℕ
rank role =
    if "owner" == role then 3 else if "admin" == role then 2 else if "member" == role then 1 else 0

abbrev pub rank_for : String → ℕ
rank_for action =
    if "edit_documents" == action
    then 1
    else if ("manage_roles" == action) || ("delete_workspace" == action)
    then 3
    else if ("invite_members" == action)
        || ("manage_agents" == action)
        || ("manage_daemons" == action)
        || ("manage_workspace" == action)
    then 2
    else 4

module _ (role : String) where
  -- The table and the ranks agree on an action.
  abbrev Agree : String → Type 0
  Agree action = role_can_perform role action ≡ leb (rank_for action) (rank role)

  for_action : (a action : String) → (a == action) ≡ true → Agree a → Agree action
  for_action a action same h = subst Agree ((String_key.same_iff a action).0 same) h

  known_actions :
      Agree "invite_members"
      × Agree "manage_roles"
      × Agree "manage_agents"
      × Agree "manage_daemons"
      × Agree "edit_documents"
      × Agree "delete_workspace"
      × Agree "manage_workspace"
  unfolding role_can_perform role_permissions lookup contains
  known_actions = (
    ground arith,
    ground arith,
    ground arith,
    ground arith,
    ground arith,
    ground arith,
    ground arith,
  )

  other_action :
      (action : String)
      → ("invite_members" == action) ≡ false
      → ("manage_roles" == action) ≡ false
      → ("manage_agents" == action) ≡ false
      → ("manage_daemons" == action) ≡ false
      → ("edit_documents" == action) ≡ false
      → ("delete_workspace" == action) ≡ false
      → ("manage_workspace" == action) ≡ false
      → Agree action
  unfolding role_can_perform role_permissions lookup
  other_action action n0 n1 n2 n3 n4 n5 n6 = ground (arith, n0, n1, n2, n3, n4, n5, n6)

  role_can_perform-rank : (action : String) → Agree action
  role_can_perform-rank action =
      let known = known_actions in
      elim (Bool-cases ("invite_members" == action)) [
        | inl here ↦ for_action "invite_members" action here (known.0)
        | inr n0 ↦ elim (Bool-cases ("manage_roles" == action)) [
          | inl here ↦ for_action "manage_roles" action here (known.1)
          | inr n1 ↦ elim (Bool-cases ("manage_agents" == action)) [
            | inl here ↦ for_action "manage_agents" action here (known.2)
            | inr n2 ↦ elim (Bool-cases ("manage_daemons" == action)) [
              | inl here ↦ for_action "manage_daemons" action here (known.3)
              | inr n3 ↦ elim (Bool-cases ("edit_documents" == action)) [
                | inl here ↦ for_action "edit_documents" action here (known.4)
                | inr n4 ↦ elim (Bool-cases ("delete_workspace" == action)) [
                  | inl here ↦ for_action "delete_workspace" action here (known.5)
                  | inr n5 ↦ elim (Bool-cases ("manage_workspace" == action)) [
                    | inl here ↦ for_action "manage_workspace" action here (known.6)
                    | inr n6 ↦ other_action action n0 n1 n2 n3 n4 n5 n6
                  ]
                ]
              ]
            ]
          ]
        ]
      ]

choice :
    (daemon able : Bool)
    → (if daemon then permitted else if not able then insufficient_permissions else permitted)
      ≡ (if daemon || able then permitted else insufficient_permissions)
choice true able = refl
choice false true = refl
choice false false = refl

-- Without a context authentication is required. A daemon may do everything. Another principal may do
-- what its role is high enough for: members edit documents, admins also invite, and manage agents,
-- daemons and the workspace, owners also manage roles and delete the workspace; an action or a role
-- that is not known gives nothing. The roles that are valid for a membership are those of a rank.
pub require_permission-rank :
    (auth : AuthContext) (action : String)
    → (require_permission none action ≡ authentication_required)
      × (require_permission (some auth) action ≡ (
          if (auth.principal_kind == "daemon") || leb (rank_for action) (rank auth.membership_role)
          then permitted
          else insufficient_permissions))
      × (validate_membership_role auth.membership_role ≡ ltb 0 (rank auth.membership_role))
unfolding require_permission validate_membership_role
require_permission-rank auth action = (
  refl,
  rw (role_can_perform-rank auth.membership_role action) (
      choice (auth.principal_kind == "daemon") (leb (rank_for action) (rank auth.membership_role))),
  ground arith,
)
