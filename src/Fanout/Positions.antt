-- ===== src/Fanout/Positions.antt =====
-- The resume position of the fanout worker (apps/workers/fanout/src/handlers.ts,
-- handleConsumedEvent; apps/services/feed/src/modules/checkpoint.repository.ts).
use xitter.Feed.{Feed}
