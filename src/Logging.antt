-- ===== src/Logging.antt =====
-- webtool/logger/dev_handler.py: the rotation of log files.
pub mod Calendar
pub mod Files
pub mod Handler
