-- ===== src/Pages.antt =====
-- The page of the routes: packages/shared/src/store/useRouteFormStore.ts (Modal),
-- packages/shared/src/lib/factories.ts (Factories) and
-- apps/web/src/pages/routes/model/useRoutesPage.ts (Handlers, and Locations for those of the list
-- of locations).
pub mod Modal
pub mod Factories
pub mod Handlers
pub mod Locations
pub mod Reports
pub mod Modals
pub mod Twice
pub mod Emptied
pub mod Ports
