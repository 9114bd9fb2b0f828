-- ===== src/Codec.antt =====
-- src/northgate_rmm/codec.py: the hooks that `json.loads` calls, and the decoder of messages.
mod Load
mod Decode
pub mod Sound
pub mod Strict
pub mod Tests
unfoldable pub use Load.*
unfoldable pub use Decode.*
