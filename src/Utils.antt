-- ===== src/Utils.antt =====
-- webtool/utils.
pub mod Key
