-- ===== src/TextBuffer/Safety/Buffer.antt =====
-- The bindings on text buffers keep what allowed calls of the native side keep.
use opentui_ocaml.Prelude.{
  ℕ, ◌-◌, ◌^◌, ◌<◌, ◌≡◌, ◌≢◌, ◌⊎◌, Bool, List, arith, length, Option-cases, inl, inr, leb→le,
}
use opentui_ocaml.Prelude.Int.{ℤ}
use opentui_ocaml.Status.{ok, native_failure}
use opentui_ocaml.Values.{Value, to_uint32, string_val}
use opentui_ocaml.TextBuffer.Native.{Command, Query, Attempt, NativeText}
use opentui_ocaml.TextBuffer.Arguments.{ByteArray, read_byte_array}
use opentui_ocaml.TextBuffer.Allowed.{Keeps}
use opentui_ocaml.TextBuffer.Behaves.{Behaves}
use opentui_ocaml.TextBuffer.Ranges.{read_byte_array-IsSized}
use opentui_ocaml.Readers.Laws.{in_range-le}
use opentui_ocaml.TextBuffer.Buffer.{
  text_buffer_create, text_buffer_clear, text_buffer_reset, append_bytes, text_buffer_append,
  text_buffer_register_mem_buffer, text_buffer_replace_mem_buffer, text_buffer_set_text_from_mem,
  text_buffer_length, text_buffer_byte_size, text_buffer_line_count, text_buffer_load_file,
  text_buffer_get_tab_width, text_buffer_set_tab_width,
}

module _ (native : NativeText) (Good : native.World → Type 0) (keeps : Keeps native Good) where
  pub text_buffer_create-Behaves :
      (n : ℤ) (w : native.World)
      → Behaves Good 1 w ((text_buffer_create native n w).0.0) (text_buffer_create native n w).1
  unfolding text_buffer_create
  text_buffer_create-Behaves n w =
      ground (arith, in_range-le n 1, keeps.asks (Query.create_text_buffer (to_uint32 n)) w)

  pub text_buffer_clear-Behaves :
      (h : ℕ) (w : native.World)
      → Behaves Good h w ((text_buffer_clear native h w).0) (text_buffer_clear native h w).1
  unfolding text_buffer_clear
  text_buffer_clear-Behaves h w = ground (arith, keeps.performs (Command.clear h) w)

  pub text_buffer_reset-Behaves :
      (h : ℕ) (w : native.World)
      → Behaves Good h w ((text_buffer_reset native h w).0) (text_buffer_reset native h w).1
  unfolding text_buffer_reset
  text_buffer_reset-Behaves h w = ground (arith, keeps.performs (Command.reset h) w)

  append_bytes-kept :
      (h : ℕ) (bytes : List ℕ) (w : native.World)
      → h ≢ 0
      → length bytes < 2 ^ 32
      → Good w
      → Good (append_bytes native h bytes w).1
  unfolding append_bytes
  append_bytes-kept h bytes w live sized g =
      let before = native.ask (Query.get_byte_size h) w in
      let appended = native.perform (Command.append h bytes) before.1 in
      ground (
        arith,
        keeps.asks (Query.get_byte_size h) w live g,
        keeps.performs (Command.append h bytes) before.1,
        keeps.asks (Query.get_byte_size h) appended,
      )

  append_bytes-status :
      (h : ℕ) (bytes : List ℕ) (w : native.World)
      → ((append_bytes native h bytes w).0 ≡ ok)
        ⊎ ((append_bytes native h bytes w).0 ≡ native_failure)
  unfolding append_bytes
  append_bytes-status h bytes w = ground arith

  pub text_buffer_append-Behaves :
      (h : ℕ) (a : ByteArray) (w : native.World)
      → Behaves Good h w ((text_buffer_append native h a w).0) (text_buffer_append native h a w).1
  unfolding text_buffer_append
  text_buffer_append-Behaves h a w = elim (Option-cases (read_byte_array a)) [
    | inl e ↦ ground (arith, e)
    | inr (c, e) ↦
        ground (
          arith,
          e,
          read_byte_array-IsSized a e,
          append_bytes-kept h c w,
          append_bytes-status h c w,
        )
  ]

  pub text_buffer_register_mem_buffer-Behaves :
      (h : ℕ) (a : ByteArray) (owned : Bool) (w : native.World)
      → Behaves Good h w
          ((text_buffer_register_mem_buffer native h a owned w).0.0)
          (text_buffer_register_mem_buffer native h a owned w).1
  unfolding text_buffer_register_mem_buffer
  text_buffer_register_mem_buffer-Behaves h a owned w = elim (Option-cases (read_byte_array a)) [
    | inl e ↦ ground (arith, e)
    | inr (c, e) ↦
        ground (
          arith,
          e,
          read_byte_array-IsSized a e,
          keeps.asks (Query.register_mem_buffer h c owned) w,
        )
  ]

  pub text_buffer_replace_mem_buffer-Behaves :
      (h : ℕ) (n : ℤ) (a : ByteArray) (owned : Bool) (w : native.World)
      → Behaves Good h w
          ((text_buffer_replace_mem_buffer native h n a owned w).0)
          (text_buffer_replace_mem_buffer native h n a owned w).1
  unfolding text_buffer_replace_mem_buffer
  text_buffer_replace_mem_buffer-Behaves h n a owned w = elim (Option-cases (read_byte_array a)) [
    | inl e ↦ ground (arith, e)
    | inr (c, e) ↦ ground (
      arith,
      e,
      read_byte_array-IsSized a e,
      in_range-le n 255,
      keeps.tries (Attempt.replace_mem_buffer h (to_uint32 n) c owned) w,
    )
  ]

  pub text_buffer_set_text_from_mem-Behaves :
      (h : ℕ) (n : ℤ) (m : ℤ) (w : native.World)
      → Behaves Good h w
          ((text_buffer_set_text_from_mem native h n m w).0)
          (text_buffer_set_text_from_mem native h n m w).1
  unfolding text_buffer_set_text_from_mem
  text_buffer_set_text_from_mem-Behaves h n m w =
      let loaded = native.perform (Command.set_text_from_mem h (to_uint32 n)) w in
      ground (
        arith,
        in_range-le n 255,
        keeps.performs (Command.set_text_from_mem h (to_uint32 n)) w,
        keeps.asks (Query.get_byte_size h) loaded,
      )

  pub text_buffer_length-Behaves :
      (h : ℕ) (w : native.World)
      → Behaves Good h w ((text_buffer_length native h w).0.0) (text_buffer_length native h w).1
  unfolding text_buffer_length
  text_buffer_length-Behaves h w = ground (arith, keeps.asks (Query.get_length h) w)

  pub text_buffer_byte_size-Behaves :
      (h : ℕ) (w : native.World)
      → Behaves Good h w
          ((text_buffer_byte_size native h w).0.0)
          (text_buffer_byte_size native h w).1
  unfolding text_buffer_byte_size
  text_buffer_byte_size-Behaves h w = ground (arith, keeps.asks (Query.get_byte_size h) w)

  pub text_buffer_line_count-Behaves :
      (h : ℕ) (w : native.World)
      → Behaves Good h w
          ((text_buffer_line_count native h w).0.0)
          (text_buffer_line_count native h w).1
  unfolding text_buffer_line_count
  text_buffer_line_count-Behaves h w = ground (arith, keeps.asks (Query.get_line_count h) w)

  pub text_buffer_load_file-Behaves :
      (h : ℕ) (v : Value) (w : native.World)
      → Behaves Good h w
          ((text_buffer_load_file native h v w).0)
          (text_buffer_load_file native h v w).1
  unfolding text_buffer_load_file
  text_buffer_load_file-Behaves h v w = elim (Option-cases (string_val v)) [
    | inl e ↦ ground (arith, e)
    | inr (c, e) ↦
        ground (arith, e, leb→le (length c) (2 ^ 32 - 1), keeps.tries (Attempt.load_file h c) w)
  ]

  pub text_buffer_get_tab_width-Behaves :
      (h : ℕ) (w : native.World)
      → Behaves Good h w
          ((text_buffer_get_tab_width native h w).0.0)
          (text_buffer_get_tab_width native h w).1
  unfolding text_buffer_get_tab_width
  text_buffer_get_tab_width-Behaves h w = ground (arith, keeps.asks (Query.get_tab_width h) w)

  pub text_buffer_set_tab_width-Behaves :
      (h : ℕ) (n : ℤ) (w : native.World)
      → Behaves Good h w
          ((text_buffer_set_tab_width native h n w).0)
          (text_buffer_set_tab_width native h n w).1
  unfolding text_buffer_set_tab_width
  text_buffer_set_tab_width-Behaves h n w =
      ground (arith, in_range-le n 255, keeps.performs (Command.set_tab_width h (to_uint32 n)) w)
