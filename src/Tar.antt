-- ===== src/Tar.antt =====
-- internal/tarstream/tarstream.go: SafeJoin, Unpack and Pack.
pub mod SafeJoin
pub mod Unpack
pub mod Pack
