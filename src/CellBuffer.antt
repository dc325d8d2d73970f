-- ===== src/CellBuffer.antt =====
-- packages/opentui-raw/raw_stubs.c: the bindings that draw into the cell buffers of a renderer and
-- into optimized buffers.
pub mod Native
pub mod Arguments
pub mod Request
pub mod Drawing
pub mod Aliases
pub mod Scopes
pub mod Allowed
pub mod Ranges
pub mod Rules
pub mod Requests
pub mod Calls
pub mod Safety
pub mod Refusal
pub mod Tests
