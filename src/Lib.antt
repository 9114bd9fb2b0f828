-- ===== src/Lib.antt =====
-- NorthGate RMM: the control plane of a remote monitoring service (src/northgate_rmm). An endpoint
-- is enrolled with an identity; its agent sends heartbeats and inventories over mutual TLS; an
-- operator reads the endpoints. The parts and the files that model them:
--
-- src/northgate_rmm/domain.py: Domain (Domain/Time, Domain/Identity, Domain/Grant,
-- Domain/Messages, Domain/Facts). A dataclass is a record, and its `__post_init__` a check that
-- returns the record or raises. An aware datetime is its instant in microseconds; a UUID is its
-- 128-bit integer. The digests are of the text that `json.dumps` writes (Json, Json/Escape);
-- SHA-256 itself is a parameter.
--
-- src/northgate_rmm/errors.py: Prelude/Result, one constructor for each class.
--
-- src/northgate_rmm/control_plane.py: ControlPlane. ControlPlane/State has the tables and the
-- audit log, ControlPlane/Messages the ingestion, ControlPlane/Admin enrollment, revocation,
-- operator audit, listing and status. A method maps a state to a result and a state; what it wrote
-- before it raised stays written. `uuid4()` draws from a given sequence. ControlPlane/Change says
-- what one call may change, ControlPlane/Runs and ControlPlane/Permanence what sequences of calls
-- do, ControlPlane/Listing and ControlPlane/Freshness what is read.
--
-- src/northgate_rmm/codec.py: Codec. Codec/Load has the hooks of `json.loads`, Codec/Decode the
-- decoder. The scanner of `json.loads`, `UUID(text)`, `datetime.fromisoformat` and the text of a
-- list are parameters.
--
-- src/northgate_rmm/agent_api.py: Agent, over any store of agent messages. It calls the codec,
-- then the store.
--
-- src/northgate_rmm/operator_api.py: Operator (Operator/Principal, Operator/Answers,
-- Operator/Handler), over any store and verifier.
--
-- src/northgate_rmm/views.py: Views, the HTML that the operator application sends.
--
-- src/northgate_rmm/listener.py: Listener/Admission has the limits on connections, Listener/Rate
-- those on requests. A clock reading is a whole number of microseconds; the rounding of floats is
-- not modelled.
--
-- Shared names, lists, dictionaries, texts and the monads for code that raises are in Prelude. All
-- loops are over lists, so nothing runs on fuel. A text holds no surrogates.
--
-- Not modelled: persistence.py, enrollment.py, the services, the other listeners and clients, TLS,
-- sockets and files, and the agent, which is written in Go.
pub mod Agent
pub mod Codec
pub mod ControlPlane
pub mod Domain
pub mod Json
pub mod Listener
pub mod Operator
pub mod Prelude
pub mod Views
