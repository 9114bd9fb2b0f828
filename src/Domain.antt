-- ===== src/Domain.antt =====
-- src/northgate_rmm/domain.py.
mod Time
mod Identity
mod Grant
mod Messages
mod Facts
unfoldable pub use Time.*
unfoldable pub use Identity.*
unfoldable pub use Grant.*
unfoldable pub use Messages.*
unfoldable pub use Facts.*
