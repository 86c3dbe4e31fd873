-- ===== src/Cron/Service/Cancelled.antt =====
-- Ticks of cron/service.py that another task cancels.
use amber_claw.Base.Key.{text_key}
