-- ===== src/Refresh.antt =====
-- Refreshing a session: `RefreshService.refresh` of apps/iam-api/src/auth/refresh.service.ts, with the
-- token format of refresh-token.util.ts, the replay cache of refresh-replay.cache.ts, the service's
-- `rotateRefreshToken` of session.service.ts, and the rotation decision that
-- `auth_rotate_refresh_token` of libs/db/src/migrations/0013-refresh-rotation.ts takes.
pub mod Token
pub mod Rotation
pub mod Service
pub mod Safety
pub mod Rows
pub mod Answer
pub mod Race
mod Tests
