-- ===== src/Auth/Roles/Table.antt =====
-- apps/web/src/lib/utils/permissions.ts: the constants ROLE_PERMISSIONS and `labels`.
use xp_panel.Shared.{Text, codes, List, [], ◌∷◌}

unfoldable pub super_admin_permissions : List Text
super_admin_permissions = codes "super:*" ∷ []

unfoldable pub admin_permissions : List Text
admin_permissions =
    codes "domains:read"
    ∷ codes "domains:write"
    ∷ codes "domains:delete"
    ∷ codes "dns:read"
    ∷ codes "dns:write"
    ∷ codes "mail:read"
    ∷ codes "mail:write"
    ∷ codes "files:read"
    ∷ codes "files:write"
    ∷ codes "db:read"
    ∷ codes "db:write"
    ∷ codes "backup:read"
    ∷ codes "backup:write"
    ∷ codes "backup:restore"
    ∷ codes "security:read"
    ∷ codes "security:write"
    ∷ codes "monitoring:read"
    ∷ codes "monitoring:write"
    ∷ codes "billing:read"
    ∷ codes "billing:write"
    ∷ codes "devops:read"
    ∷ codes "devops:write"
    ∷ codes "docker:read"
    ∷ codes "docker:write"
    ∷ codes "ai:use"
    ∷ codes "marketplace:read"
    ∷ codes "marketplace:install"
    ∷ codes "admin:users"
    ∷ codes "admin:servers"
    ∷ []

unfoldable pub reseller_permissions : List Text
reseller_permissions =
    codes "domains:read"
    ∷ codes "domains:write"
    ∷ codes "dns:read"
    ∷ codes "dns:write"
    ∷ codes "mail:read"
    ∷ codes "mail:write"
    ∷ codes "db:read"
    ∷ codes "db:write"
    ∷ codes "backup:read"
    ∷ codes "backup:write"
    ∷ codes "monitoring:read"
    ∷ codes "billing:read"
    ∷ codes "billing:write"
    ∷ codes "ai:use"
    ∷ codes "marketplace:read"
    ∷ codes "marketplace:install"
    ∷ codes "admin:users"
    ∷ []

unfoldable pub user_permissions : List Text
user_permissions =
    codes "domains:read"
    ∷ codes "domains:write"
    ∷ codes "dns:read"
    ∷ codes "dns:write"
    ∷ codes "mail:read"
    ∷ codes "mail:write"
    ∷ codes "files:read"
    ∷ codes "files:write"
    ∷ codes "db:read"
    ∷ codes "db:write"
    ∷ codes "backup:read"
    ∷ codes "backup:write"
    ∷ codes "backup:restore"
    ∷ codes "monitoring:read"
    ∷ codes "billing:read"
    ∷ codes "ai:use"
    ∷ codes "marketplace:read"
    ∷ codes "marketplace:install"
    ∷ []

unfoldable pub developer_permissions : List Text
developer_permissions =
    codes "domains:read"
    ∷ codes "domains:write"
    ∷ codes "dns:read"
    ∷ codes "dns:write"
    ∷ codes "mail:read"
    ∷ codes "mail:write"
    ∷ codes "files:read"
    ∷ codes "files:write"
    ∷ codes "db:read"
    ∷ codes "db:write"
    ∷ codes "backup:read"
    ∷ codes "backup:write"
    ∷ codes "backup:restore"
    ∷ codes "monitoring:read"
    ∷ codes "billing:read"
    ∷ codes "devops:read"
    ∷ codes "devops:write"
    ∷ codes "docker:read"
    ∷ codes "docker:write"
    ∷ codes "ai:use"
    ∷ codes "marketplace:read"
    ∷ codes "marketplace:install"
    ∷ []

unfoldable pub auditor_permissions : List Text
auditor_permissions =
    codes "domains:read"
    ∷ codes "dns:read"
    ∷ codes "mail:read"
    ∷ codes "db:read"
    ∷ codes "backup:read"
    ∷ codes "security:read"
    ∷ codes "monitoring:read"
    ∷ codes "billing:read"
    ∷ codes "devops:read"
    ∷ codes "docker:read"
    ∷ codes "marketplace:read"
    ∷ []

unfoldable pub role_permissions : List (Text × List Text)
role_permissions =
    (codes "super_admin", super_admin_permissions)
    ∷ (codes "admin", admin_permissions)
    ∷ (codes "reseller", reseller_permissions)
    ∷ (codes "user", user_permissions)
    ∷ (codes "developer", developer_permissions)
    ∷ (codes "auditor", auditor_permissions)
    ∷ []

unfoldable pub role_labels : List (Text × Text)
role_labels =
    (codes "super_admin", codes "Super Admin")
    ∷ (codes "admin", codes "Admin")
    ∷ (codes "reseller", codes "Reseller")
    ∷ (codes "user", codes "User")
    ∷ (codes "developer", codes "Developer")
    ∷ (codes "auditor", codes "Auditor")
    ∷ []
