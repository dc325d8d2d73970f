-- ===== src/TextBuffer/View.antt =====
-- The bindings of text_buffer_stubs.c on the views of text buffers, their selection apart.
use opentui_ocaml.Prelude.{ℕ, Bool, not, ◌&&◌, List, [], ◌==◌, if◌then◌else◌, found, map}
use opentui_ocaml.Prelude.Int.{ℤ, pos}
use opentui_ocaml.Status.{Status, ok, invalid_argument, stale_handle, native_failure}
use opentui_ocaml.Values.{Value, to_uint32}
use opentui_ocaml.TextBuffer.Native.{Command, Query, NativeText, LineInfo}
use opentui_ocaml.Readers.{is_positive}
use opentui_ocaml.TextBuffer.Arguments.{in_range, read_color}
use opentui_ocaml.Values.{to_int32}

-- The fields of `make_status_line_info` after the status.
pub record LineArrays : Type 0 where
  pub starts : List ℤ
  pub widths : List ℤ
  pub sources : List ℤ
  pub wraps : List ℤ
  pub width_cols_max : ℤ

-- The branch of `make_status_line_info` for a null pointer.
abbrev pub no_lines : LineArrays
no_lines = record { starts = []; widths = []; sources = []; wraps = []; width_cols_max = pos 0 }

unfoldable pub copy_u32_array : List ℕ → List ℤ
copy_u32_array = map to_int32

unfoldable pub line_arrays : LineInfo → LineArrays
unfolding copy_u32_array
line_arrays info = record {
  starts = copy_u32_array info.start_cols;
  widths = copy_u32_array info.width_cols;
  sources = copy_u32_array info.sources;
  wraps = copy_u32_array info.wraps;
  width_cols_max = to_int32 info.width_cols_max;
}

module _ (native : NativeText) where
  open native use {World, perform, ask, measure, line_info, logical_line_info}

  unfoldable pub text_buffer_view_create : ℕ → World → (Status × ℕ) × World
  text_buffer_view_create buffer w =
      if buffer == 0
      then ((stale_handle, 0), w)
      else let made = ask (Query.create_view buffer) w in
        if made.0 == 0 then ((native_failure, 0), made.1) else ((ok, made.0), made.1)

  unfoldable pub text_buffer_view_destroy : ℕ → World → World
  text_buffer_view_destroy handle w =
      if handle == 0 then w else perform (Command.destroy_view handle) w

  unfoldable pub text_buffer_view_set_wrap_width : ℕ → ℤ → World → Status × World
  text_buffer_view_set_wrap_width handle width w =
      if handle == 0
      then (stale_handle, w)
      else if is_positive width
      then (ok, perform (Command.set_wrap_width handle (to_uint32 width)) w)
      else (invalid_argument, w)

  unfoldable pub text_buffer_view_set_wrap_mode : ℕ → ℤ → World → Status × World
  text_buffer_view_set_wrap_mode handle mode w =
      if handle == 0
      then (stale_handle, w)
      else if in_range mode 2
      then (ok, perform (Command.set_wrap_mode handle (to_uint32 mode)) w)
      else (invalid_argument, w)

  unfoldable pub text_buffer_view_set_first_line_offset : ℕ → ℤ → World → Status × World
  text_buffer_view_set_first_line_offset handle offset w =
      if handle == 0
      then (stale_handle, w)
      else if is_positive offset
      then (ok, perform (Command.set_first_line_offset handle (to_uint32 offset)) w)
      else (invalid_argument, w)

  unfoldable pub text_buffer_view_set_viewport_size : ℕ → ℤ → ℤ → World → Status × World
  text_buffer_view_set_viewport_size handle width height w =
      if handle == 0
      then (stale_handle, w)
      else if is_positive width && is_positive height
      then (ok, perform (Command.set_viewport_size handle (to_uint32 width) (to_uint32 height)) w)
      else (invalid_argument, w)

  unfoldable pub text_buffer_view_set_viewport : ℕ → ℤ → ℤ → ℤ → ℤ → World → Status × World
  text_buffer_view_set_viewport handle x y width height w =
      if handle == 0
      then (stale_handle, w)
      else if is_positive x && is_positive y && is_positive width && is_positive height
      then (
        ok,
        perform
            (Command.set_viewport handle (to_uint32 x) (to_uint32 y) (to_uint32 width)
              (to_uint32 height))
            w,
      )
      else (invalid_argument, w)

  unfoldable pub text_buffer_view_get_virtual_line_count : ℕ → World → (Status × ℤ) × World
  text_buffer_view_get_virtual_line_count handle w =
      if handle == 0
      then ((stale_handle, pos 0), w)
      else let answer = ask (Query.get_virtual_line_count handle) w in
        ((ok, to_int32 answer.0), answer.1)

  unfoldable pub text_buffer_view_set_tab_indicator : ℕ → ℤ → World → Status × World
  text_buffer_view_set_tab_indicator handle indicator w =
      if handle == 0
      then (stale_handle, w)
      else if is_positive indicator
      then (ok, perform (Command.set_tab_indicator handle (to_uint32 indicator)) w)
      else (invalid_argument, w)

  unfoldable pub text_buffer_view_set_tab_indicator_color : ℕ → Value → World → Status × World
  text_buffer_view_set_tab_indicator_color handle color_value w =
      if handle == 0
      then (stale_handle, w)
      else found (read_color color_value) (invalid_argument, w)
          (λ color. (ok, perform (Command.set_tab_indicator_color handle color) w))

  unfoldable pub text_buffer_view_set_truncate : ℕ → Bool → World → Status × World
  text_buffer_view_set_truncate handle truncate w =
      if handle == 0
      then (stale_handle, w)
      else (ok, perform (Command.set_truncate handle truncate) w)

  -- The status, the number of lines and the widest one.
  unfoldable pub text_buffer_view_measure_for_dimensions :
      ℕ → ℤ → ℤ → World → (Status × ℤ × ℤ) × World
  text_buffer_view_measure_for_dimensions handle width height w =
      if handle == 0
      then ((stale_handle, pos 0, pos 0), w)
      else if not (is_positive width && is_positive height)
      then ((invalid_argument, pos 0, pos 0), w)
      else let measured = measure handle (to_uint32 width) (to_uint32 height) w in
        found measured.0 ((native_failure, pos 0, pos 0), measured.1)
          (λ r. ((ok, to_int32 r.line_count, to_int32 r.width_cols_max), measured.1))

  unfoldable pub text_buffer_view_get_line_info : ℕ → World → (Status × LineArrays) × World
  unfolding line_arrays
  text_buffer_view_get_line_info handle w =
      if handle == 0
      then ((stale_handle, no_lines), w)
      else let result = line_info handle w in ((ok, line_arrays result.0), result.1)

  unfoldable pub text_buffer_view_get_logical_line_info : ℕ → World → (Status × LineArrays) × World
  unfolding line_arrays
  text_buffer_view_get_logical_line_info handle w =
      if handle == 0
      then ((stale_handle, no_lines), w)
      else let result = logical_line_info handle w in ((ok, line_arrays result.0), result.1)
