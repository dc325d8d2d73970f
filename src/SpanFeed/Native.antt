-- ===== src/SpanFeed/Native.antt =====
-- What span_feed_stubs.c calls: the Zig span feed behind the declarations of native/opentui_abi.h,
-- and the structures that cross that boundary. The feed itself is not part of the repository, so it
-- is a parameter: a type of its states and one function for each call, with no assumption.
use opentui_ocaml.Prelude.{ℕ, Bool, List}
use opentui_ocaml.Prelude.Int.{ℤ}

-- `opentui_external_span_feed_options`
pub record FeedOptions : Type 0 where
  pub chunk_size : ℕ
  pub initial_chunks : ℕ
  pub max_bytes : ℕ
  pub growth_policy : ℕ
  pub auto_commit_on_full : Bool
  pub span_queue_capacity : ℕ

-- `opentui_external_span_feed_stats`
pub record FeedStats : Type 0 where
  pub bytes_written : ℕ
  pub spans_committed : ℕ
  pub chunks : ℕ
  pub pending_spans : ℕ

-- `opentui_external_span_info`
pub record SpanInfo : Type 0 where
  pub chunk_ptr : ℕ
  pub offset : ℕ
  pub len : ℕ
  pub chunk_index : ℕ
  pub reserved : ℕ

-- `opentui_external_reserve_info`
pub record ReserveInfo : Type 0 where
  pub ptr : ℕ
  pub len : ℕ
  pub reserved : ℕ

-- A stream is the address of a native feed, and 0 is NULL. An `int32_t` result is a ℤ. `World` is
-- the state of the native library and of the memory that the two sides share.
pub record NativeFeed : Type 1 where
  pub World : Type 0
  pub create_native_span_feed : FeedOptions → World → ℕ × World
  pub attach_native_span_feed : ℕ → World → ℤ × World
  pub destroy_native_span_feed : ℕ → World → World
  pub stream_close : ℕ → World → ℤ × World
  pub stream_write : ℕ → List ℕ → World → ℤ × World
  pub stream_commit : ℕ → World → ℤ × World
  pub stream_reserve : ℕ → ℕ → World → ℤ × ReserveInfo × World
  pub stream_commit_reserved : ℕ → ℕ → World → ℤ × World
  pub stream_cancel_reserved : ℕ → World → ℤ × World
  pub stream_get_stats : ℕ → World → ℤ × FeedStats × World
  -- `streamDrainSpans` with room for one span: the count, the span, the new state.
  pub stream_drain_span : ℕ → World → ℕ × SpanInfo × World
  pub stream_mark_span_consumed : ℕ → SpanInfo → World → ℤ × World
  -- `memcpy` from and to native memory.
  pub read_memory : ℕ → ℕ → World → List ℕ
  pub write_memory : ℕ → List ℕ → World → World
