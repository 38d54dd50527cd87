-- ===== src/Deployment.antt =====
-- The server and the edge together: what the server compiles, an edge holds, and both decide.
pub mod Badges
