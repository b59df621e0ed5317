-- ===== src/Db.antt =====
-- webtool/db: the database clients.
pub mod Client
