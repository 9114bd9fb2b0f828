-- ===== src/Operator.antt =====
-- src/northgate_rmm/operator_api.py: the read-only operator application, over any store and any
-- verifier of sessions. `uuid4`, `UUID(text)`, `str.isprintable` and `datetime.isoformat` are
-- parameters. The body of a response is the text that is encoded.
mod Principal
mod Answers
mod Handler
pub mod Authorized
mod Tests
unfoldable pub use Principal.*
unfoldable pub use Answers.*
unfoldable pub use Handler.*
