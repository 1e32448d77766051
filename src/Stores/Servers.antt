-- ===== src/Stores/Servers.antt =====
-- apps/web/src/lib/stores/server.store.ts: the active server and the list of recent ones.
pub mod Laws
use xp_panel.Shared.{Text, Bool, Option, none, some, List, [], ◌∷◌, not, take, keep, text_eq}

pub data ServerStatus : Type 0 where
  active offline maintenance : ServerStatus

pub record ActiveServer : Type 0 where
  pub id : Text
  pub hostname : Text
  pub ip : Text
  pub status : ServerStatus
  pub datacenter : Option Text
  pub os_type : Option Text

pub record ServerStore : Type 0 where
  pub active_server : Option ActiveServer
  pub recent_servers : List ActiveServer

abbrev pub no_servers : ServerStore
no_servers = record { active_server = none; recent_servers = [] }

abbrev pub is_other : Text → ActiveServer → Bool
is_other i s = not (text_eq s.id i)

-- `[server, ...recent.filter(s => s.id !== server.id)].slice(0, 5)`.
unfoldable pub promote : ActiveServer → List ActiveServer → List ActiveServer
promote server recent = take 5 (server ∷ keep (is_other server.id) recent)

unfoldable pub recent_after : Option ActiveServer → List ActiveServer → List ActiveServer
unfolding promote
recent_after none recent = recent
recent_after (some server) recent = promote server recent

unfoldable pub set_active_server : Option ActiveServer → ServerStore → ServerStore
unfolding recent_after
set_active_server server s = record s {
  active_server = server;
  recent_servers = recent_after server s.recent_servers;
}

unfoldable pub add_recent_server : ActiveServer → ServerStore → ServerStore
unfolding promote
add_recent_server server s = record s { recent_servers = promote server s.recent_servers }

unfoldable pub clear_active_server : ServerStore → ServerStore
clear_active_server s = record s { active_server = none }

pub data Call : Type 0 where
  sets_active : Option ActiveServer → Call
  adds_recent : ActiveServer → Call
  clears : Call

unfoldable pub call : Call → ServerStore → ServerStore
call (sets_active server) s = set_active_server server s
call (adds_recent server) s = add_recent_server server s
call clears s = clear_active_server s

unfoldable pub calls : List Call → ServerStore → ServerStore
calls [] s = s
calls (c ∷ cs) s = calls cs (call c s)
