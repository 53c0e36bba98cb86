-- ===== src/Actions.antt =====
-- The toolkit that the release action calls, @actions/core, as it stands in the bundle that the
-- runner executes, .github/actions/propose/dist/index.js.
pub mod Process
pub mod Command
pub mod Core
pub mod Summary
mod Tests
