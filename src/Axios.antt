-- ===== src/Axios.antt =====
-- The HTTP client of the proposal service's client, axios, as it stands in
-- .github/actions/propose/dist/index.js: interceptors, the dispatch of a request, configurations
-- and urls.
pub mod Interceptors
pub mod Config
pub mod Dispatch
pub mod Paths
pub mod Cancel
pub mod Headers
pub mod Query
pub mod Validator
mod Tests
