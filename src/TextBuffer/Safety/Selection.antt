-- ===== src/TextBuffer/Safety/Selection.antt =====
-- The bindings on selections and native renderables keep what allowed calls of the native side
-- keep.
use opentui_ocaml.Prelude.{
  ℕ, ◌-◌, ◌^◌, ◌≡◌, ◌≢◌, ◌⊎◌, List, arith, ◌==◌, length, take, length-take, Option-cases,
  Bool-cases, inl, inr, refl,
}
use opentui_ocaml.Prelude.Int.{ℤ}
use opentui_ocaml.Status.{invalid_argument, stale_handle}
use opentui_ocaml.Values.{to_uint32-lt, Value, to_uint32, has_fields, field, int32_val}
use opentui_ocaml.TextBuffer.Native.{Command, Query, Attempt, NativeText}
use opentui_ocaml.TextBuffer.Arguments.{read_optional_color}
use opentui_ocaml.TextBuffer.Allowed.{Keeps}
use opentui_ocaml.Readers.Laws.{IsColor}
use opentui_ocaml.TextBuffer.Behaves.{Behaves}
use opentui_ocaml.Readers.Laws.{in_range-le, read_optional_color-IsColor}
use opentui_ocaml.TextBuffer.Selection.{
  LocalSelection, text_buffer_view_set_selection, text_buffer_view_update_selection,
  text_buffer_view_reset_selection, text_buffer_view_set_local_selection,
  text_buffer_view_update_local_selection, text_buffer_view_reset_local_selection,
  text_buffer_view_get_selected_text, native_renderable_create,
  native_renderable_set_measure_target, native_renderable_clear_measure_target, refused, accepted,
  local_selection_arguments, set_local, update_local,
}

-- What the two arguments with a colour say, if they are accepted.
local_selection_arguments-cases :
    (h : ℕ) (v : Value)
    → (local_selection_arguments h v ≡ refused invalid_argument)
      ⊎ ((local_selection_arguments h v ≡ refused stale_handle) × (h ≡ 0))
      ⊎ ((s : LocalSelection) × (local_selection_arguments h v ≡ accepted s)
          × (h ≢ 0)
          × IsColor s.background
          × IsColor s.foreground)
unfolding local_selection_arguments
local_selection_arguments-cases h v = elim (Bool-cases (has_fields v 6)) [
  | inr other ↦ inl (rw other refl)
  | inl six ↦ elim (Bool-cases (h == 0)) [
    | inl null ↦ inr (inl (rw (six, null) refl, ground (arith, null)))
    | inr live ↦ elim (Option-cases (read_optional_color (field v 4))) [
      | inl e ↦ inl (rw (six, live, e) refl)
      | inr (bg, eb) ↦ elim (Option-cases (read_optional_color (field v 5))) [
        | inl e ↦ inl (rw (six, live, eb, e) refl)
        | inr (fg, ef) ↦ inr (
            inr (
              record {
                anchor_x = int32_val (field v 0);
                anchor_y = int32_val (field v 1);
                focus_x = int32_val (field v 2);
                focus_y = int32_val (field v 3);
                background = bg;
                foreground = fg;
              },
              rw (six, live, eb, ef) refl,
              ground (arith, live),
              read_optional_color-IsColor (field v 4) eb,
              read_optional_color-IsColor (field v 5) ef,
            ))
      ]
    ]
  ]
]

module _ (native : NativeText) (Good : native.World → Type 0) (keeps : Keeps native Good) where
  pub text_buffer_view_set_selection-Behaves :
      (h : ℕ) (n : ℤ) (m : ℤ) (b : Value) (f : Value) (w : native.World)
      → Behaves Good h w
          ((text_buffer_view_set_selection native h n m b f w).0)
          (text_buffer_view_set_selection native h n m b f w).1
  unfolding text_buffer_view_set_selection
  text_buffer_view_set_selection-Behaves h n m b f w = elim (Option-cases (read_optional_color b)) [
    | inl e ↦ ground (arith, e)
    | inr (bg, eb) ↦ elim (Option-cases (read_optional_color f)) [
      | inl e ↦ ground (arith, eb, e)
      | inr (fg, ef) ↦ ground (
        arith,
        eb,
        ef,
        read_optional_color-IsColor b eb,
        read_optional_color-IsColor f ef,
        in_range-le n (2 ^ 31 - 1),
        in_range-le m (2 ^ 31 - 1),
        keeps.performs (Command.set_selection h (to_uint32 n) (to_uint32 m) bg fg) w,
      )
    ]
  ]

  pub text_buffer_view_update_selection-Behaves :
      (h : ℕ) (n : ℤ) (b : Value) (f : Value) (w : native.World)
      → Behaves Good h w
          ((text_buffer_view_update_selection native h n b f w).0)
          (text_buffer_view_update_selection native h n b f w).1
  unfolding text_buffer_view_update_selection
  text_buffer_view_update_selection-Behaves h n b f w =
      elim (Option-cases (read_optional_color b)) [
        | inl e ↦ ground (arith, e)
        | inr (bg, eb) ↦ elim (Option-cases (read_optional_color f)) [
          | inl e ↦ ground (arith, eb, e)
          | inr (fg, ef) ↦ ground (
            arith,
            eb,
            ef,
            read_optional_color-IsColor b eb,
            read_optional_color-IsColor f ef,
            in_range-le n (2 ^ 31 - 1),
            keeps.performs (Command.update_selection h (to_uint32 n) bg fg) w,
          )
        ]
      ]

  pub text_buffer_view_reset_selection-Behaves :
      (h : ℕ) (w : native.World)
      → Behaves Good h w
          ((text_buffer_view_reset_selection native h w).0)
          (text_buffer_view_reset_selection native h w).1
  unfolding text_buffer_view_reset_selection
  text_buffer_view_reset_selection-Behaves h w =
      ground (arith, keeps.performs (Command.reset_selection h) w)

  pub text_buffer_view_set_local_selection-Behaves :
      (h : ℕ) (v : Value) (w : native.World)
      → Behaves Good h w
          ((text_buffer_view_set_local_selection native h v w).0.0)
          (text_buffer_view_set_local_selection native h v w).1
  unfolding text_buffer_view_set_local_selection
  text_buffer_view_set_local_selection-Behaves h v w = elim (local_selection_arguments-cases h v) [
    | inl e ↦ rw (e, set_local) (ground arith)
    | inr (inl (e, null)) ↦ rw (e, set_local) (ground arith)
    | inr (inr (s, e, live, bg, fg)) ↦
        let allowed =
          keeps.tries
            (Attempt.set_local_selection h s.anchor_x s.anchor_y s.focus_x s.focus_y s.background
              s.foreground)
            w (live, bg, fg) in
        rw (e, set_local) (ground arith)
  ]

  pub text_buffer_view_update_local_selection-Behaves :
      (h : ℕ) (v : Value) (w : native.World)
      → Behaves Good h w
          ((text_buffer_view_update_local_selection native h v w).0.0)
          (text_buffer_view_update_local_selection native h v w).1
  unfolding text_buffer_view_update_local_selection
  text_buffer_view_update_local_selection-Behaves h v w =
      elim (local_selection_arguments-cases h v) [
        | inl e ↦ rw (e, update_local) (ground arith)
        | inr (inl (e, null)) ↦ rw (e, update_local) (ground arith)
        | inr (inr (s, e, live, bg, fg)) ↦
            let allowed =
              keeps.tries
                (Attempt.update_local_selection h s.anchor_x s.anchor_y s.focus_x s.focus_y
                  s.background s.foreground)
                w (live, bg, fg) in
            rw (e, update_local) (ground arith)
      ]

  pub text_buffer_view_reset_local_selection-Behaves :
      (h : ℕ) (w : native.World)
      → Behaves Good h w
          ((text_buffer_view_reset_local_selection native h w).0)
          (text_buffer_view_reset_local_selection native h w).1
  unfolding text_buffer_view_reset_local_selection
  text_buffer_view_reset_local_selection-Behaves h w =
      ground (arith, keeps.performs (Command.reset_local_selection h) w)

  pub text_buffer_view_get_selected_text-Behaves :
      (h : ℕ) (output : List ℕ) (n : ℤ) (w : native.World)
      → Behaves Good h w
          ((text_buffer_view_get_selected_text native h output n w).0.0)
          (text_buffer_view_get_selected_text native h output n w).1
  unfolding text_buffer_view_get_selected_text
  text_buffer_view_get_selected_text-Behaves h output n w = ground (
    arith,
    in_range-le n (length output),
    length-take (to_uint32 n) output,
    to_uint32-lt n,
    keeps.selects h (take (to_uint32 n) output) w,
  )

  pub native_renderable_create-Behaves :
      (w : native.World)
      → Behaves Good 1 w
          ((native_renderable_create native w).0.0)
          (native_renderable_create native w).1
  unfolding native_renderable_create
  native_renderable_create-Behaves w = ground (arith, keeps.asks Query.create_renderable w)

  pub native_renderable_set_measure_target-Behaves :
      (h : ℕ) (n : ℤ) (t : ℕ) (w : native.World)
      → Behaves Good h w
          ((native_renderable_set_measure_target native h n t w).0)
          (native_renderable_set_measure_target native h n t w).1
  unfolding native_renderable_set_measure_target
  native_renderable_set_measure_target-Behaves h n t w =
      ground (arith, keeps.tries (Attempt.set_measure_target h (to_uint32 n) t) w)

  pub native_renderable_clear_measure_target-Behaves :
      (h : ℕ) (w : native.World)
      → Behaves Good h w
          ((native_renderable_clear_measure_target native h w).0)
          (native_renderable_clear_measure_target native h w).1
  unfolding native_renderable_clear_measure_target
  native_renderable_clear_measure_target-Behaves h w =
      ground (arith, keeps.tries (Attempt.set_measure_target h 0 0) w)
