-- ===== src/Client/Route.antt =====
-- src/executor/atomic/onchain_router.rs and generic_route.rs: the router instructions of the client.
pub mod Sections
pub mod Encode
pub mod Roundtrip
pub mod Layout
pub mod Accepted
pub mod Generic
pub mod GenericSections
pub mod SectionData
pub mod BuildGeneric
pub mod SwapOutput
