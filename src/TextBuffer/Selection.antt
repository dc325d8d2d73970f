-- ===== src/TextBuffer/Selection.antt =====
-- The bindings of text_buffer_stubs.c on the selection of a view, and on native renderables.
use opentui_ocaml.Prelude.{
  ℕ, ◌-◌, ◌^◌, Bool, false, not, ◌&&◌, List, ◌++◌, ◌==◌, ltb, if◌then◌else◌, found, length, take,
  drop,
}
use opentui_ocaml.Prelude.Int.{ℤ, pos}
use opentui_ocaml.Status.{Status, ok, invalid_argument, stale_handle, native_failure}
use opentui_ocaml.Values.{Value, has_fields, field, int32_val, to_uint32}
use opentui_ocaml.TextBuffer.Native.{Command, Query, Attempt, NativeText}
use opentui_ocaml.Readers.{Color}
use opentui_ocaml.TextBuffer.Arguments.{in_range, read_optional_color}
use opentui_ocaml.Values.{to_int32}
use opentui_ocaml.Readers.{is_positive}

-- What `local_selection_arguments` stores through its pointers.
pub record LocalSelection : Type 0 where
  pub anchor_x : ℤ
  pub anchor_y : ℤ
  pub focus_x : ℤ
  pub focus_y : ℤ
  pub background : Color
  pub foreground : Color

-- A status other than ok, or the arguments.
pub data Arguments : Type 0 where
  refused : Status → Arguments
  accepted : LocalSelection → Arguments

unfoldable pub local_selection_arguments : ℕ → Value → Arguments
local_selection_arguments handle coordinates =
    if has_fields coordinates 6
    then if handle == 0
      then refused stale_handle
      else found (read_optional_color (field coordinates 4)) (refused invalid_argument)
          (λ background.
            found (read_optional_color (field coordinates 5)) (refused invalid_argument)
              (λ foreground. accepted (record {
                anchor_x = int32_val (field coordinates 0);
                anchor_y = int32_val (field coordinates 1);
                focus_x = int32_val (field coordinates 2);
                focus_y = int32_val (field coordinates 3);
                background = background;
                foreground = foreground;
              })))
    else refused invalid_argument

module _ (native : NativeText) where
  open native use {World, perform, ask, try, selected_text}

  unfoldable pub text_buffer_view_set_selection : ℕ → ℤ → ℤ → Value → Value → World → Status × World
  text_buffer_view_set_selection handle start end background_value foreground_value w =
      if handle == 0
      then (stale_handle, w)
      else if is_positive start && is_positive end
      then found (read_optional_color background_value) (invalid_argument, w)
          (λ background.
            found (read_optional_color foreground_value) (invalid_argument, w)
              (λ foreground. (
                ok,
                perform
                    (Command.set_selection handle (to_uint32 start) (to_uint32 end) background
                      foreground)
                    w,
              )))
      else (invalid_argument, w)

  unfoldable pub text_buffer_view_update_selection : ℕ → ℤ → Value → Value → World → Status × World
  text_buffer_view_update_selection handle end background_value foreground_value w =
      if handle == 0
      then (stale_handle, w)
      else if is_positive end
      then found (read_optional_color background_value) (invalid_argument, w)
          (λ background.
            found (read_optional_color foreground_value) (invalid_argument, w)
              (λ foreground. (
                ok,
                perform (Command.update_selection handle (to_uint32 end) background foreground) w,
              )))
      else (invalid_argument, w)

  unfoldable pub text_buffer_view_reset_selection : ℕ → World → Status × World
  text_buffer_view_reset_selection handle w =
      if handle == 0 then (stale_handle, w) else (ok, perform (Command.reset_selection handle) w)

  -- UINT64_MAX for a null handle.
  unfoldable pub text_buffer_view_get_selection_info : ℕ → World → ℕ × World
  text_buffer_view_get_selection_info handle w =
      if handle == 0 then (2 ^ 64 - 1, w) else ask (Query.get_selection_info handle) w

  unfoldable pub set_local : ℕ → Arguments → World → (Status × Bool) × World
  set_local handle (refused status) w = ((status, false), w)
  set_local handle (accepted s) w =
      let set =
        try
          (Attempt.set_local_selection handle s.anchor_x s.anchor_y s.focus_x s.focus_y s.background
            s.foreground)
          w in
      ((ok, set.0), set.1)

  unfoldable pub text_buffer_view_set_local_selection : ℕ → Value → World → (Status × Bool) × World
  unfolding set_local
  text_buffer_view_set_local_selection handle coordinates w =
      set_local handle (local_selection_arguments handle coordinates) w

  unfoldable pub update_local : ℕ → Arguments → World → (Status × Bool) × World
  update_local handle (refused status) w = ((status, false), w)
  update_local handle (accepted s) w =
      let updated =
        try
          (Attempt.update_local_selection handle s.anchor_x s.anchor_y s.focus_x s.focus_y
            s.background s.foreground)
          w in
      ((ok, updated.0), updated.1)

  unfoldable pub text_buffer_view_update_local_selection :
      ℕ → Value → World → (Status × Bool) × World
  unfolding update_local
  text_buffer_view_update_local_selection handle coordinates w =
      update_local handle (local_selection_arguments handle coordinates) w

  unfoldable pub text_buffer_view_reset_local_selection : ℕ → World → Status × World
  text_buffer_view_reset_local_selection handle w =
      if handle == 0
      then (stale_handle, w)
      else (ok, perform (Command.reset_local_selection handle) w)

  -- The status, the count, and the bytes of the output afterwards: the native side overwrites the
  -- first ones, as many as the length says.
  unfoldable pub text_buffer_view_get_selected_text :
      ℕ → List ℕ → ℤ → World → (Status × ℤ × List ℕ) × World
  text_buffer_view_get_selected_text handle output len w =
      if handle == 0
      then ((stale_handle, pos 0, output), w)
      else if not (in_range len (length output))
      then ((invalid_argument, pos 0, output), w)
      else let copied = selected_text handle (take (to_uint32 len) output) w in
        ((ok, to_int32 copied.0, copied.1 ++ drop (to_uint32 len) output), copied.2)

  unfoldable pub native_renderable_create : World → (Status × ℕ) × World
  native_renderable_create w =
      let made = ask Query.create_renderable w in
      if made.0 == 0 then ((native_failure, 0), made.1) else ((ok, made.0), made.1)

  unfoldable pub native_renderable_destroy : ℕ → World → World
  native_renderable_destroy handle w =
      if handle == 0 then w else perform (Command.destroy_renderable handle) w

  unfoldable pub native_renderable_set_measure_target : ℕ → ℤ → ℕ → World → Status × World
  native_renderable_set_measure_target renderable kind_value target w =
      let kind = to_uint32 kind_value in
      if renderable == 0
      then (stale_handle, w)
      else if kind == 0 && not (target == 0)
      then (invalid_argument, w)
      else if kind == 1 && target == 0
      then (invalid_argument, w)
      else if ltb 1 kind
      then (invalid_argument, w)
      else let set = try (Attempt.set_measure_target renderable kind target) w in
        if set.0 then (ok, set.1) else (native_failure, set.1)

  unfoldable pub native_renderable_clear_measure_target : ℕ → World → Status × World
  native_renderable_clear_measure_target renderable w =
      if renderable == 0
      then (stale_handle, w)
      else let set = try (Attempt.set_measure_target renderable 0 0) w in
        if set.0 then (ok, set.1) else (native_failure, set.1)
