-- ===== src/Geoip.antt =====
-- internal/server/geoip: the cache of looked-up countries.
pub mod Lru
