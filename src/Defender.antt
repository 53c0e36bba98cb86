-- ===== src/Defender.antt =====
-- The Defender client that the release action proposes through, defender-admin-client over
-- defender-base-client, as it stands in .github/actions/propose/dist/index.js.
pub mod Remote
pub mod Client
pub mod Admin
pub mod Networks
