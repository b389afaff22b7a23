-- ===== src/Lib.antt =====
-- The TypeScript of nginx-admin, a control panel for nginx routes. A route (a domain, a port, SSL
-- files, locations, settings) is typed into a form, checked by the schemas, and stored by a use
-- case through a repository; remote routes go through a process and a gateway to an executor, and
-- from the desktop application over SSH. The sanitiser stands before stores, files and logs.
--
-- Which module models which part:
--   Common, Regex      the language: strings as lists of code points, `trim`, `includes`, the dates
--                      of `toISOString`, keyed arrays and maps, and a backtracking matcher for its
--                      regular expressions (`test`, `replace`)
--   Secrets            packages/core/src/security/secrets.ts
--   Zod                what the schemas ask of the package `zod`: a record of a parser with laws
--   Entities           packages/core/src/entities/types.ts
--   Effects            exceptions, and actions on a state that may throw
--   Routes             packages/core/src/useCases/routes.ts over the interface of
--                      packages/core/src/repositories/RouteRepository.ts, which the adapter of
--                      packages/shared/src/store/adapters/RouteRepositoryAdapter.ts fills; the
--                      store
--                      packages/shared/src/store/slices/routesSlice.ts (Slice) and the operations
--                      apps/web/src/processes/useRouteOperations.ts (Operations) use both,
--                      the latter through packages/shared/src/store/repositoryHooks.ts (Hooks)
--   CoreStorage        packages/core/src/repositories/LocalStorageRouteRepository.ts
--   Storage            packages/infra/src/repositories/BrowserLocalStorageRouteRepository.ts
--   Remote             packages/core/src/domain/Route.ts, the port RouteGateway, the commands of
--                      packages/transport/src/contracts/routeCommands.ts, the executors
--                      apps/web/src/adapters/MockExecutor.ts and
--                      apps/desktop/src/renderer/adapters/LocalRouteExecutor.ts, the gateway
--                      packages/infra/src/repositories/CommandRouteGateway.ts, the store
--                      apps/web/src/projection/routesStore.ts, the process
--                      packages/app/src/processes/RoutesProcess.ts and the two
--                      composeRoutesProcess.ts with useRoutesProcess.ts (Composition)
--   Ssh                apps/desktop/src/main/ssh/SSHExecutor.ts (Retry: `execWithRetry`; Channel:
--                      `execOnClient`; Commands: `execute` and the rest) and
--                      apps/desktop/src/main/ssh/SSHConnectionManager.ts (Manager)
--   Desktop            apps/desktop/src/main/secrets/SecretsRepository.ts (HostSecrets),
--                      apps/desktop/src/main/secrets/KeytarSecretsRepository.ts (Keytar),
--                      apps/desktop/src/main/secrets/migrateDesktopSecrets.ts (Migration; EnvFile
--                      with loadDesktopEnv) and apps/desktop/src/main/main.ts (Startup: the runtime
--                      of SSH; Lifecycle: the windows and the events of the application)
--   Bootstrap          apps/desktop/src/main/ipc/registerBootstrapHandlers.ts, its client
--                      apps/web/src/features/bootstrap/bootstrapBridgeClient.ts (Client) and the
--                      page apps/web/src/pages/bootstrap/BootstrapPage.tsx (Page)
--   Http               apps/web/src/adapters/HttpExecutor.ts
--   Preview            packages/core/src/services/ConfigGenerator.ts
--   Pages              apps/web/src/pages/routes/model/useRoutesPage.ts (Handlers, Locations) over
--                      packages/shared/src/store/useRouteFormStore.ts (Modal) and
--                      packages/shared/src/lib/factories.ts (Factories), and the modals of
--                      apps/web/src/pages/routes/RouteModal (Modals; Ports: the field of the port),
--                      with two things that their buttons do (Twice, Emptied)
--   Forms              packages/core/src/useCases/routeForm.ts and
--                      packages/shared/src/store/slices/routeFormSlice.ts
--   Logs               packages/core/src/useCases/logs.ts and
--                      packages/shared/src/store/slices/logsSlice.ts
--   Server             packages/core/src/useCases/server.ts and
--                      packages/shared/src/store/slices/serverSlice.ts
--   Integrations       packages/core/src/services/IntegrationService.ts and the subscriptions of
--                      apps/web/src/processes/integrations/storeIntegrations.ts between the stores
--   Sidebar            packages/shared/src/store/slices/uiSidebarSlice.ts
--   Examples           concrete inputs, and a concrete parser in the place of `zod`
--
-- State and operations. A class or store is a record of its fields; a method or action is a
-- function to the new state and, where it may throw, a result. Code that waits for events (a
-- channel, a connection manager) is a step function over a type of events, and a run is a list of
-- events in any order. Definitions keep the names of the source in snake case. In Integrations an
-- action of a store runs to its end before the next event, and a timer fires at any time after it
-- was set.
--
-- Bounds. A round of a loop in a regular expression consumes a character, so that the rest of the
-- text bounds the rounds; a decimal numeral of n has at most n + 1 digits; the `while` loop of
-- `execWithRetry` counts down the attempts that are left, and stands in Ssh.Retry.Loop as it is
-- written, on a number of rounds.
-- Numbers of the program are naturals; an instant is a number of milliseconds since 1970.
--
-- Parameters. The parser of `zod` and the message of its errors, `JSON.parse` for the texts of
-- a remote command and the encoding of its payload, the time, random ids, the runs of a remote
-- command and the delays; for the desktop application the package keytar with the key chain
-- behind it, JSON on the objects of secrets, the origin of a URL, and Number on the text of a
-- port; toLowerCase in the filter of logs, the decoding of a chunk of bytes over SSH, and the
-- route that the program sees in one that was parsed from the storage with texts for its
-- dates. Files are a list of paths with their contents and what the permissions allow.
--
-- What is not modelled: the Rust daemon, the rendering of pages and the user interface kit,
-- the rest of the composition roots, RemoteBridgeRouteRepository.ts, and logging to the
-- console. A JSON text in a storage is modelled by the value that it denotes. In the records a
-- port is a natural number; the texts that `PortSchema` converts stand in Ports, with `Number`
-- as a parameter.
pub mod Common
pub mod Regex
pub mod Secrets
pub mod Zod
pub mod Entities
pub mod Effects
pub mod Remote
pub mod Forms
pub mod Logs
pub mod Routes
pub mod Sidebar
pub mod Ssh
pub mod Desktop
pub mod Bootstrap
pub mod Http
pub mod Preview
pub mod Pages
pub mod Storage
mod Examples
pub mod Server
pub mod Integrations
pub mod CoreStorage
