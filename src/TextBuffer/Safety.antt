-- ===== src/TextBuffer/Safety.antt =====
-- The bindings of text_buffer_stubs.c keep whatever allowed calls of the native side keep.
pub mod Buffer
pub mod Styles
pub mod Defaults
pub mod View
pub mod Selection
pub mod Calls
