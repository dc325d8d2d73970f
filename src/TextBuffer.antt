-- ===== src/TextBuffer.antt =====
-- packages/opentui-raw/text_buffer_stubs.c: text buffers, their views and native renderables.
pub mod Native
pub mod Arguments
pub mod Buffer
pub mod Styles
pub mod View
pub mod Selection
pub mod Allowed
pub mod Ranges
pub mod Behaves
pub mod Calls
pub mod Refusal
pub mod Styled
pub mod Tests
pub mod Safety
