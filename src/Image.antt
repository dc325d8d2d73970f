-- ===== src/Image.antt =====
-- packages/opentui-raw/image_stubs.c: images, and the drawing and copying of cell buffers.
pub mod Native
pub mod Arguments
pub mod Snapshot
pub mod Operations
pub mod Drawing
pub mod Allowed
pub mod Ranges
pub mod Masks
pub mod Calls
pub mod Safety
pub mod Tests
