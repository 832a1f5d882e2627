-- ===== src/Worker.antt =====
-- backend/internal/worker: the resizable concurrency limiter and the worker pool on top of it.
pub mod Limiter
pub mod Pool
