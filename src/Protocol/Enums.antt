-- ===== src/Protocol/Enums.antt =====
-- protocol/can_protocol.hpp: the enumerations of the messages with their bytes. A C++ enumeration may
-- hold any byte; a decoder that rejects all but the enumerators is the partial function `_of` here.
pub mod Mission
pub mod Time
pub mod Recovery
pub mod Fin
pub mod Para
