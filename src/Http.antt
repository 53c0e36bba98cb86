-- ===== src/Http.antt =====
-- The HTTP client of the bundled toolkit, @actions/http-client, as it stands in
-- .github/actions/propose/dist/index.js.
pub mod Url
pub mod Proxy
pub mod Encoding
pub mod Handlers
pub mod Options
pub mod Client
pub mod Request
pub mod Responses
pub mod Oidc
mod Tests
