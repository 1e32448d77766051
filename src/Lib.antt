-- ===== src/Lib.antt =====
-- The web panel of XP Panel (apps/web/src): the state and the logic of the browser application, as
-- executable definitions, with the theorems that make them correct.
--
-- The parts and how they interact. The auth store keeps the signed-in user and the tokens and persists
-- them to localStorage, where the HTTP client and the session helpers read them; the client answers a
-- request that was refused by refreshing the tokens once, holding the requests that fail meanwhile. The
-- wrappers of the API make the requests that the pages ask for. The sign-in pages fill the auth store, and
-- the redirect of the dashboard reads it. Role tables decide what a user may do, and the permission hook
-- combines them for all roles of the user. A WebSocket hook reconnects within a limit, and the server
-- metrics are built on it. Small stores keep the active server and the state of the interface, which the
-- command palette uses. The file manager is a component whose parts (list, toolbar, dialogs) call the
-- handlers of the explorer. The DNS form and table, and the pages of the panel, each keep what is shown and
-- typed, ask for requests, and take the answers in any order.
--
-- Files and what they model:
--   Shared, Shared/*              lists, texts (UTF-16 code units), integers and Boolean tests
--   Auth/Browser, Auth/Store      lib/stores/auth.store.ts: setTokens, setUser, logout, hasPermission, hasRole
--   Auth/Session                  lib/auth/session.ts, with its own hasRole and hasPermission
--   Auth/Roles, Auth/Roles/Table  lib/utils/permissions.ts: ROLE_PERMISSIONS, canDo, rolesCanDo, roleLabel
--   Auth/Access                   lib/hooks/usePermissions.ts: can, canAny, canAll, role
--   Auth/TwoFactor                app/(auth)/two-factor/page.tsx
--   Http                          lib/api/client.ts: both interceptors, as steps on the client's state
--   Live/Socket                   lib/hooks/useWebSocket.ts: handlers, effect, send and disconnect
--   Live/Metrics                  lib/hooks/useServerMetrics.ts: callbacks, effect and history
--   Live/Voice                    lib/hooks/useVoiceControl.ts
--   Stores/Servers                lib/stores/server.store.ts
--   Stores/Ui                     lib/stores/ui.store.ts and lib/hooks/useCommandPalette.ts
--   Stores/Palette                components/layout/CommandPalette.tsx
--   Files/Permissions             components/files/ChmodDialog.tsx
--   Files/Paths                   joinPath of FileExplorer.tsx, the breadcrumb and goUp of FileToolbar.tsx
--   Files/Upload                  components/files/FileUpload.tsx
--   Files/Selection               the clicks of components/files/FileList.tsx
--   Files/Rows                    the icons, the sort arrow and the rename box of FileList.tsx
--   Files/Menu, Files/Tree        components/files/ContextMenu.tsx and FileTree.tsx
--   Files/Editor, Files/Preview   components/files/CodeEditor.tsx and PreviewModal.tsx
--   Files/Archive                 components/files/CompressDialog.tsx
--   Files/Listing                 FileInfo of lib/api/files.api.ts; filter and sort of FileExplorer.tsx
--   Files/Explorer                components/files/FileExplorer.tsx: state and handlers;
--                                 Files/Explorer/Answers has the mutations, Files/Explorer/View
--                                 the callbacks that the parts are given
--   Api, Api/*                    lib/api/auth.api.ts, dns.api.ts, cron.api.ts, docker.api.ts, databases.api.ts,
--                                 security.api.ts, backup.api.ts, hosting.api.ts, mail.api.ts: each call as data, with
--                                 the request that it makes
--   Dns/Types                     types/dns.types.ts
--   Dns/Form, Dns/Table           components/dns/DNSRecordForm.tsx and DNSRecordTable.tsx
--   SignIn/Characters             the character classes of the patterns in the pages below
--   SignIn/Register, SignIn/Slugs app/(auth)/register/page.tsx and the slug it makes of a name
--   SignIn/Login, SignIn/Callback app/(auth)/login/page.tsx and app/(auth)/auth/callback/page.tsx
--   SignIn/Reset, SignIn/Forgot   app/(auth)/reset-password/page.tsx and forgot-password/page.tsx
--   SignIn/Setup                  app/setup/page.tsx
--   SignIn/Dashboard              these pages and the auth store together, up to the redirect of the dashboard
--   Panel/Runs                    runs of a page and their effects
--   Panel/Dialog, Panel/Inline    the two forms that the pages share in shape: a dialog over the page, and
--                                 a form above the list; each page gives its fields and its calls
--   Panel/Cron, Panel/Ftp, Panel/Redirects, Panel/Subdomains, Panel/SshKeys, Panel/Compose,
--   Panel/Docker, Panel/Databases, Panel/Firewall, Panel/Backups, Panel/Notifications
--                                 app/(panel): cron, ftp, redirects, subdomains, ssh-keys, docker, docker/compose,
--                                 databases, security/firewall, backups and notifications, each page.tsx
--   Panel/Autoresponders, Panel/MailQueue, Panel/Forwarders
--                                 app/(panel)/email: autoresponders, queue and forwarders, each page.tsx
--   Panel/Threats                 app/(panel)/monitoring/geomap/page.tsx, without the drawing
--   Format                        lib/utils/format.ts
-- All paths are below apps/web/src. The modules below a component state its theorems; Tests has runs at
-- concrete inputs.
--
-- How state is modelled. A store, a hook or a component is a record, each of its operations a function
-- from the old record to the new one, in the words of the source (setTokens is set_tokens). What the
-- browser, React and the API do is an event, and the events come in any order: a run is a list of them.
-- What the program does to its surroundings is a list of effects or requests. A number that the source
-- compares is a natural number; where it may be -1 it is an integer of Shared/Ints. The loop of the upload
-- is a part of the state. Only the printing of a number runs on fuel, of which it has one more than the
-- number, since each digit leaves a smaller number. Every function is total.
--
-- What is a parameter. Browser, a record of Auth/Browser, stands for localStorage with the persist
-- middleware, the location and the decoding of a token's claims, with the laws of a store that is read
-- after it is written; plain_browser is one that satisfies them. toLowerCase, localeCompare and the case folding
-- of a pattern are functions; their Unicode tables are not needed for what is proved.
--
-- What is not modelled. The Go services, the markup, animation and styling, and the pages that only show
-- the results of queries. The clock does not occur, and the zoom of an image is counted in hundredths.
-- Of format.ts the functions that need floating point or Intl are left out, and of the
-- threat map the coordinates. The other pages of e-mail and those of domains, resellers, web server,
-- marketplace and settings are not modelled.
pub mod Shared
pub mod Auth
pub mod Http
pub mod Live
pub mod Stores
pub mod Files
pub mod Api
pub mod Dns
pub mod SignIn
pub mod Panel
pub mod Format
mod Tests
