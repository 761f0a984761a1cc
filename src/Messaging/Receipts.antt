-- ===== src/Messaging/Receipts.antt =====
-- Acknowledging messages.
use lac.Core.Time.{Time}
use lac.Store.Messages
