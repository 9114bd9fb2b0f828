-- ===== src/Listener.antt =====
-- src/northgate_rmm/listener.py: admission of connections and the rate limiter of requests.
pub mod Admission
pub mod Rate
mod Tests
