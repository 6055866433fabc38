-- ===== src/Handlers.antt =====
-- internal/grpc: the handlers of the RPCs, between the messages of the protocol and the services. A message
-- is a record of the fields that the handler reads or writes; what the generated code and the
-- package structpb do is the parameter `Protobuf` of Metadata.
pub mod Metadata
pub mod Documents
pub mod Searches
pub mod Collections
pub mod Health
pub mod Rpcs
