-- ===== src/Actions/Overlap.antt =====
-- Two stagings of one contact and kind: `create_pending_action` alone, and with another between its
-- two statements.
use whats_app_poke.Payload.{Payload}
