-- ===== src/Http.antt =====
-- The way from an HTTP request to a connection: socket_connection.go and the part of router.go that
-- answers requests.
pub mod Wrapper
pub mod Serving
pub mod Upgrading
