-- ===== src/Webhook.antt =====
-- Webhooks: the outbox poller and the dead letters (src/webhook), and the delivery worker
-- (src/transfer/webhook.processor.ts).
pub mod Settle
pub mod Outbox
pub mod OutboxLaws
pub mod Drain
pub mod Attempts
pub mod Dlq
pub mod DlqLaws
pub mod Delivery
pub mod DeliveryLaws
