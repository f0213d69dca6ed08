-- ===== src/Version.antt =====
-- Versions: the comparison of version strings, and epoch:version-release triples.
pub mod Compare
pub mod Evr
