-- ===== src/Lib.antt =====
-- The C bindings of opentui-ocaml, between OCaml and the native terminal interface library.
--
-- The bindings keep all their state in static tables and hand 32-bit tokens to OCaml. The native
-- library behind them is not in the repository, so each component takes its calls as a record of
-- functions, with no assumption on what they answer but those that are named below.
--
-- Prelude      shared names, Boolean tests, lists and integers over the native numbers, and rules
--              that prove a property of a branching result branch by branch.
-- Token        packages/opentui-raw/span_feed_stubs.c: make_token, token_index, token_generation,
--              next_generation; yoga_stubs.c repeats them.
-- Slots        The slot tables of the same two files: lookup by token, allocation of the first free
--              slot, release, and the loop that releases every slot of an owner. Table sizes are
--              parameters, bounded by 2 ^ 16 where tokens must hold an index. Slots.History follows a
--              table through a list of allocations and releases.
-- Status       packages/opentui-raw/raw_status.h.
-- Values       OCaml values as C code sees them, the casts between int32_t and uint32_t, and the one
--              to int, which keeps the low 32 bits.
-- Readers      The readers that several files of packages/opentui-raw repeat: ranges, colours, optional
--              colours and strings.
-- TextBuffer   packages/opentui-raw/text_buffer_stubs.c, every binding: buffers (TextBuffer.Buffer),
--              styles and highlights (TextBuffer.Styles), views (TextBuffer.View) and selections
--              (TextBuffer.Selection). TextBuffer.Calls is a history of such calls.
-- Image        packages/opentui-raw/image_stubs.c, every binding: snapshots of a cell buffer and their
--              restoring (Image.Snapshot), images (Image.Operations), drawing (Image.Drawing) and
--              histories (Image.Calls).
-- CellBuffer   packages/opentui-raw/raw_stubs.c, the bindings opentui_raw_buffer_... and
--              opentui_raw_optimized_buffer_...: drawing (CellBuffer.Drawing), scissor rectangles,
--              opacities, reading, creating and destroying (CellBuffer.Scopes), and bindings that only
--              call another one (CellBuffer.Aliases). A binding that draws computes a request,
--              which is refused or one native call (CellBuffer.Request).
-- SpanFeed     packages/opentui-raw/span_feed_stubs.c, every binding. Its state is the three tables and
--              the state of the native feed; SpanFeed.Native is the record of native calls.
--              SpanFeed.Operations holds create, close, write, commit and reserve, and
--              SpanFeed.Transfers drain, span_release, reservation_commit, reservation_cancel and
--              stats. SpanFeed.Calls is a history of such calls.
-- EventSink    packages/opentui-raw/raw_stubs.c, the event queue at its end: the ring of 64 slots
--              (EventSink), the bounded queue that it implements (EventSink.Spec) and histories of
--              calls and callbacks (EventSink.Calls). Native calls return the events that they emit
--              while they run. EventSink.Bytes is about the fixed buffers of a slot.
-- Yoga         packages/opentui-raw/yoga_stubs.c: the node table and the handle functions (Yoga), the
--              checks on numbers (Yoga.Numbers), the bindings that change the tree (Yoga.Tree) and the
--              bindings on one node (Yoga.Layout). Yoga.Forest says what a table without cycles is,
--              Yoga.Calls follows a table through a list of calls. The loop over the ancestors of a
--              node (Yoga.Cycle) has 4096 rounds, one more than a chain without cycles has nodes.
--              Yoga.Subtree has free_recursive and its two walks over a subtree; a walk has 4096 rounds,
--              one for each slot, since it passes a node once; Yoga.Subtree.Below is the tree that
--              parent handles describe, and Yoga.Agree is about the tree that the layout library keeps.
--              Yoga.Measure is the measure callback.
-- Ring         Fixed arrays read around their end, for EventSink and Diagnostics.
-- Buffers      Byte arrays, memcpy and what is read back.
-- Diagnostics  packages/opentui-wgpu/src/wgpu_stubs.c, the capture of diagnostic lines:
--              opentui_wgpu_diag_push and opentui_wgpu_drain_diagnostics, which run under one mutex
--              (Diagnostics), and the callbacks that write a line (Diagnostics.Callbacks). A number has
--              at most ten digits.
-- SyntaxStyle  packages/opentui-raw/syntax_style_stubs.c, every binding; its readers of colours are those
--              of Readers.
--
-- A C function that raises an OCaml exception is modelled in drain and reserve, where the code
-- prepares for it, and in event_sink_poll, which copies an event: a Boolean argument says whether
-- the OCaml heap has room. An int32_t is an integer, a uint32_t or a pointer a natural number with
-- its wrap-around written out, and a null pointer is 0. A double is a data type of its own, its
-- finite values in units of 2 ^ -1074. Loops over a table are recursions on the number of rounds
-- left. A native call that can call back returns the events that it emits.
--
-- The contracts of TextBuffer, Image, CellBuffer and SyntaxStyle are in their modules Allowed:
-- which arguments a native function may be given, and, in the record Keeps, that a property of the
-- native state is kept by every call with such arguments. The modules Tests fill Keeps with the
-- property that every call so far had such arguments, over a native side that notes its calls. That
-- the memory of a cell buffer keeps what is written in bounds is the record IsMemory of
-- Image.Snapshot.Memory; what Yoga documents of the calls that change its tree is the record
-- IsLibrary of Yoga.Agree. A value of an OCaml type that a binding does not check, where C would
-- read what is not there, is read as 0, or as no bytes.
--
-- Not modelled: a layout that a measure callback starts itself; in wgpu_stubs.c all but the
-- diagnostics; in raw_stubs.c the bindings on a renderer; capability_stubs.c; the marshalling of
-- results into OCaml blocks, and memory of the C side that lives within one call; and the tests and
-- the declarations in packages/opentui-raw/native.
pub mod Prelude
pub mod Ring
pub mod Buffers
pub mod Diagnostics
pub mod SyntaxStyle
pub mod Token
pub mod Slots
pub mod Status
pub mod Values
pub mod Readers
pub mod TextBuffer
pub mod Image
pub mod CellBuffer
pub mod SpanFeed
pub mod EventSink
pub mod Yoga
