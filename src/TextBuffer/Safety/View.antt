-- ===== src/TextBuffer/Safety/View.antt =====
-- The bindings on views keep what allowed calls of the native side keep.
use opentui_ocaml.Prelude.{ℕ, ◌-◌, ◌^◌, Bool, arith, Option-cases, inl, inr}
use opentui_ocaml.Prelude.Int.{ℤ}
use opentui_ocaml.Values.{Value, to_uint32}
use opentui_ocaml.TextBuffer.Native.{Command, Query, NativeText}
use opentui_ocaml.TextBuffer.Arguments.{read_color}
use opentui_ocaml.TextBuffer.Allowed.{Keeps}
use opentui_ocaml.TextBuffer.Behaves.{Behaves}
use opentui_ocaml.Readers.Laws.{in_range-le, read_color-IsChannels}
use opentui_ocaml.TextBuffer.View.{
  text_buffer_view_create, text_buffer_view_set_wrap_width, text_buffer_view_set_first_line_offset,
  text_buffer_view_set_tab_indicator, text_buffer_view_set_wrap_mode,
  text_buffer_view_set_viewport_size, text_buffer_view_set_viewport,
  text_buffer_view_get_virtual_line_count, text_buffer_view_set_tab_indicator_color,
  text_buffer_view_set_truncate, text_buffer_view_measure_for_dimensions,
  text_buffer_view_get_line_info, text_buffer_view_get_logical_line_info,
}

module _ (native : NativeText) (Good : native.World → Type 0) (keeps : Keeps native Good) where
  pub text_buffer_view_create-Behaves :
      (h : ℕ) (w : native.World)
      → Behaves Good h w
          ((text_buffer_view_create native h w).0.0)
          (text_buffer_view_create native h w).1
  unfolding text_buffer_view_create
  text_buffer_view_create-Behaves h w = ground (arith, keeps.asks (Query.create_view h) w)

  pub text_buffer_view_set_wrap_width-Behaves :
      (h : ℕ) (n : ℤ) (w : native.World)
      → Behaves Good h w
          ((text_buffer_view_set_wrap_width native h n w).0)
          (text_buffer_view_set_wrap_width native h n w).1
  unfolding text_buffer_view_set_wrap_width
  text_buffer_view_set_wrap_width-Behaves h n w =
      ground (
        arith,
        in_range-le n (2 ^ 31 - 1),
        keeps.performs (Command.set_wrap_width h (to_uint32 n)) w,
      )

  pub text_buffer_view_set_first_line_offset-Behaves :
      (h : ℕ) (n : ℤ) (w : native.World)
      → Behaves Good h w
          ((text_buffer_view_set_first_line_offset native h n w).0)
          (text_buffer_view_set_first_line_offset native h n w).1
  unfolding text_buffer_view_set_first_line_offset
  text_buffer_view_set_first_line_offset-Behaves h n w = ground (
    arith,
    in_range-le n (2 ^ 31 - 1),
    keeps.performs (Command.set_first_line_offset h (to_uint32 n)) w,
  )

  pub text_buffer_view_set_tab_indicator-Behaves :
      (h : ℕ) (n : ℤ) (w : native.World)
      → Behaves Good h w
          ((text_buffer_view_set_tab_indicator native h n w).0)
          (text_buffer_view_set_tab_indicator native h n w).1
  unfolding text_buffer_view_set_tab_indicator
  text_buffer_view_set_tab_indicator-Behaves h n w = ground (
    arith,
    in_range-le n (2 ^ 31 - 1),
    keeps.performs (Command.set_tab_indicator h (to_uint32 n)) w,
  )

  pub text_buffer_view_set_wrap_mode-Behaves :
      (h : ℕ) (n : ℤ) (w : native.World)
      → Behaves Good h w
          ((text_buffer_view_set_wrap_mode native h n w).0)
          (text_buffer_view_set_wrap_mode native h n w).1
  unfolding text_buffer_view_set_wrap_mode
  text_buffer_view_set_wrap_mode-Behaves h n w =
      ground (arith, in_range-le n 2, keeps.performs (Command.set_wrap_mode h (to_uint32 n)) w)

  pub text_buffer_view_set_viewport_size-Behaves :
      (h : ℕ) (n : ℤ) (m : ℤ) (w : native.World)
      → Behaves Good h w
          ((text_buffer_view_set_viewport_size native h n m w).0)
          (text_buffer_view_set_viewport_size native h n m w).1
  unfolding text_buffer_view_set_viewport_size
  text_buffer_view_set_viewport_size-Behaves h n m w = ground (
    arith,
    in_range-le n (2 ^ 31 - 1),
    in_range-le m (2 ^ 31 - 1),
    keeps.performs (Command.set_viewport_size h (to_uint32 n) (to_uint32 m)) w,
  )

  pub text_buffer_view_set_viewport-Behaves :
      (h : ℕ) (x : ℤ) (y : ℤ) (n : ℤ) (m : ℤ) (w : native.World)
      → Behaves Good h w
          ((text_buffer_view_set_viewport native h x y n m w).0)
          (text_buffer_view_set_viewport native h x y n m w).1
  unfolding text_buffer_view_set_viewport
  text_buffer_view_set_viewport-Behaves h x y n m w = ground (
    arith,
    in_range-le x (2 ^ 31 - 1),
    in_range-le y (2 ^ 31 - 1),
    in_range-le n (2 ^ 31 - 1),
    in_range-le m (2 ^ 31 - 1),
    keeps.performs (Command.set_viewport h (to_uint32 x) (to_uint32 y) (to_uint32 n) (to_uint32 m))
        w,
  )

  pub text_buffer_view_get_virtual_line_count-Behaves :
      (h : ℕ) (w : native.World)
      → Behaves Good h w
          ((text_buffer_view_get_virtual_line_count native h w).0.0)
          (text_buffer_view_get_virtual_line_count native h w).1
  unfolding text_buffer_view_get_virtual_line_count
  text_buffer_view_get_virtual_line_count-Behaves h w =
      ground (arith, keeps.asks (Query.get_virtual_line_count h) w)

  pub text_buffer_view_set_tab_indicator_color-Behaves :
      (h : ℕ) (v : Value) (w : native.World)
      → Behaves Good h w
          ((text_buffer_view_set_tab_indicator_color native h v w).0)
          (text_buffer_view_set_tab_indicator_color native h v w).1
  unfolding text_buffer_view_set_tab_indicator_color
  text_buffer_view_set_tab_indicator_color-Behaves h v w = elim (Option-cases (read_color v)) [
    | inl e ↦ ground (arith, e)
    | inr (c, e) ↦ ground (
      arith,
      e,
      read_color-IsChannels v e,
      keeps.performs (Command.set_tab_indicator_color h c) w,
    )
  ]

  pub text_buffer_view_set_truncate-Behaves :
      (h : ℕ) (on : Bool) (w : native.World)
      → Behaves Good h w
          ((text_buffer_view_set_truncate native h on w).0)
          (text_buffer_view_set_truncate native h on w).1
  unfolding text_buffer_view_set_truncate
  text_buffer_view_set_truncate-Behaves h on w =
      ground (arith, keeps.performs (Command.set_truncate h on) w)

  pub text_buffer_view_measure_for_dimensions-Behaves :
      (h : ℕ) (n : ℤ) (m : ℤ) (w : native.World)
      → Behaves Good h w
          ((text_buffer_view_measure_for_dimensions native h n m w).0.0)
          (text_buffer_view_measure_for_dimensions native h n m w).1
  unfolding text_buffer_view_measure_for_dimensions
  text_buffer_view_measure_for_dimensions-Behaves h n m w = ground (
    arith,
    in_range-le n (2 ^ 31 - 1),
    in_range-le m (2 ^ 31 - 1),
    keeps.measures h (to_uint32 n) (to_uint32 m) w,
  )

  pub text_buffer_view_get_line_info-Behaves :
      (h : ℕ) (w : native.World)
      → Behaves Good h w
          ((text_buffer_view_get_line_info native h w).0.0)
          (text_buffer_view_get_line_info native h w).1
  unfolding text_buffer_view_get_line_info
  text_buffer_view_get_line_info-Behaves h w = ground (arith, keeps.lines h w)

  pub text_buffer_view_get_logical_line_info-Behaves :
      (h : ℕ) (w : native.World)
      → Behaves Good h w
          ((text_buffer_view_get_logical_line_info native h w).0.0)
          (text_buffer_view_get_logical_line_info native h w).1
  unfolding text_buffer_view_get_logical_line_info
  text_buffer_view_get_logical_line_info-Behaves h w = ground (arith, keeps.logical_lines h w)
