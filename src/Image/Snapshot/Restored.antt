-- ===== src/Image/Snapshot/Restored.antt =====
-- What the cells of a snapshot are, and what an array of a buffer holds once they are written back.
use opentui_ocaml.Prelude.{
  ℕ, zero, suc, ◌+◌, ◌*◌, ◌^◌, ◌<◌, ◌≡◌, ◌≢◌, refl, sym, ap, ◌∙◌, inl, List, [], ◌∷◌, map, arith,
  length, true, ◌==◌, some,
}
use opentui_ocaml.Prelude.Int.{ℤ}
use opentui_ocaml.Values.{count_fields, to_int32, to_uint32-to_int32}
use opentui_ocaml.Image.Native.{NativeImage, Plane, chars, foreground, background, attributes}
use opentui_ocaml.Image.Arguments.{
  make_int32_array, custom_fields, read_elements, read_int32_array_values,
}
use opentui_ocaml.Image.Snapshot.{
  Cells, read_snapshot, to_element, load_from, copy_cells, store_two, restore_cells,
}
use opentui_ocaml.Image.Snapshot.Memory.{IsMemory, elements, element_bits, Stands}
use opentui_ocaml.Image.Snapshot.Loops.{store_two-Stands, load-store_two, load_from-store_two}

read_elements-custom_fields : (ns : List ℤ) → read_elements (custom_fields ns) ≡ some ns
unfolding read_elements
read_elements-custom_fields [] = refl
read_elements-custom_fields (n ∷ ns) = rw (read_elements-custom_fields ns) refl

count-custom_fields : (ns : List ℤ) → count_fields (custom_fields ns) ≡ length ns
count-custom_fields [] = refl
count-custom_fields (n ∷ ns) = ap suc (count-custom_fields ns)

read-make_int32_array :
    (ns : List ℤ) {n : ℕ}
    → length ns ≡ n
    → read_int32_array_values (make_int32_array ns) n ≡ some ns
unfolding read_int32_array_values make_int32_array
read-make_int32_array ns {n} e =
    let counted : (count_fields (custom_fields ns) == n) ≡ true =
      ground (arith, count-custom_fields ns, e) in
    rw counted (read_elements-custom_fields ns)

to_element-to_int32 : (p : Plane) (n : ℕ) → n < 2 ^ element_bits p → to_element p (to_int32 n) ≡ n
unfolding to_element
to_element-to_int32 chars n h = to_uint32-to_int32 n h
to_element-to_int32 foreground n h = omega (arith, to_uint32-to_int32 n (omega arith))
to_element-to_int32 background n h = omega (arith, to_uint32-to_int32 n (omega arith))
to_element-to_int32 attributes n h = to_uint32-to_int32 n h

module _ (native : NativeImage) (h : ℕ) (memory : IsMemory native h) where
  -- The elements of one array of the buffer.
  abbrev pub contents : Plane → native.World → List ℕ
  contents p w =
      load_from native p (native.plane_ptr p h w) 0
        (elements p (native.buffer_width h w * native.buffer_height h w)) w

  abbrev pub ints : Plane → ℕ → native.World → List ℤ
  ints p count w = map to_int32 (load_from native p (native.plane_ptr p h w) 0 count w)

  pub length-load_from :
      (p : Plane) (a start count : ℕ) (w : native.World)
      → length (map to_int32 (load_from native p a start count w)) ≡ count
  unfolding load_from
  length-load_from p a start zero w = refl
  length-load_from p a start (suc count) w = ap suc (length-load_from p a (start + 1) count w)

  pub elements-ints :
      (p : Plane) (a start count : ℕ) (w : native.World)
      → map (to_element p) (map to_int32 (load_from native p a start count w))
        ≡ load_from native p a start count w
  unfolding load_from
  elements-ints p a start zero w = refl
  elements-ints p a start (suc count) w =
      rw
        (
          to_element-to_int32 p (native.load p a start w) (memory.bounded p a start w),
          elements-ints p a (start + 1) count w,
        )
        refl

  -- What is read of a copy.
  unfoldable pub copied : ℕ → native.World → Cells
  copied cells w = record {
    char_values = ints chars cells w;
    foreground_values = ints foreground (cells * 4) w;
    background_values = ints background (cells * 4) w;
    attribute_values = ints attributes cells w;
  }

  pub read_snapshot-copy_cells :
      (cells : ℕ) (w : native.World)
      → read_snapshot (copy_cells native h cells w) cells ≡ some (copied cells w)
  unfolding read_snapshot copy_cells copied
  read_snapshot-copy_cells cells w =
      rw
        (
          read-make_int32_array (ints chars cells w) (length-load_from chars _ 0 cells w),
          read-make_int32_array (ints foreground (cells * 4) w)
              (length-load_from foreground _ 0 (cells * 4) w),
          read-make_int32_array (ints background (cells * 4) w)
              (length-load_from background _ 0 (cells * 4) w),
          read-make_int32_array (ints attributes cells w) (length-load_from attributes _ 0 cells w),
        )
        refl

  load_from-agree :
      (p : Plane) (a start count : ℕ) (v w : native.World)
      → ((j : ℕ) → j < start + count → native.load p a j v ≡ native.load p a j w)
      → load_from native p a start count v ≡ load_from native p a start count w
  unfolding load_from
  load_from-agree p a start zero v w same = refl
  load_from-agree p a start (suc count) v w same =
      rw
        (
          same start (omega arith),
          load_from-agree p a (start + 1) count v w (λ j near. same j (omega arith)),
        )
        refl

  unfoldable pub values : Plane → Cells → List ℤ
  values chars c = c.char_values
  values foreground c = c.foreground_values
  values background c = c.background_values
  values attributes c = c.attribute_values

  module _ (c : Cells) (w : native.World)
      (fit : (p : Plane)
        → length (values p c)
          ≡ elements p (native.buffer_width h w * native.buffer_height h w)) where
    abbrev at : Plane → ℕ
    at p = native.plane_ptr p h w

    abbrev cells : ℕ
    cells = native.buffer_width h w * native.buffer_height h w

    start_Stands : Stands native h memory at cells w
    start_Stands = record { points = λ p. refl; sized = refl }

    -- After the first of the two loops.
    half : native.World
    half =
        store_two native chars (at chars) attributes (at attributes) 0 c.char_values
          c.attribute_values w

    half-Stands : Stands native h memory at cells half
    unfolding half values
    half-Stands =
        store_two-Stands native h memory at cells chars attributes (λ e. cc) c.char_values
          c.attribute_values 0 start_Stands (omega (arith, fit chars))
          (omega (arith, fit attributes))

    end_Stands : Stands native h memory at cells (restore_cells native h c w)
    unfolding restore_cells half values
    end_Stands =
        store_two-Stands native h memory at cells foreground background (λ e. cc)
          c.foreground_values c.background_values 0 half-Stands (omega (arith, fit foreground))
          (omega (arith, fit background))

    -- An array of the first loop, after both.
    kept_half :
        (r : Plane)
        → foreground ≢ r
        → background ≢ r
        → load_from native r (at r) 0 (elements r cells) (restore_cells native h c w)
          ≡ load_from native r (at r) 0 (elements r cells) half
    unfolding restore_cells half values
    kept_half r not_fg not_bg = load_from-agree r (at r) 0 (elements r cells) _ _ (λ j near.
        load-store_two native h memory at cells foreground background (λ e. cc) c.foreground_values
          c.background_values 0 r j half-Stands (omega (arith, fit foreground))
          (omega (arith, fit background)) (omega arith) (inl (not_fg, not_bg)))

    in_place :
        (p : Plane)
        → load_from native p (at p) 0 (elements p cells) (restore_cells native h c w)
          ≡ map (to_element p) (values p c)
    unfolding restore_cells half values
    in_place chars =
        kept_half chars (λ e. cc) (λ e. cc)
        ∙ ap (λ n. load_from native chars (at chars) 0 n half) (sym (fit chars))
        ∙ (load_from-store_two native h memory at cells chars attributes (λ e. cc) c.char_values
            c.attribute_values 0 start_Stands (omega (arith, fit chars))
            (omega (arith, fit attributes)) (fit chars ∙ sym (fit attributes))).0
    in_place attributes =
        kept_half attributes (λ e. cc) (λ e. cc)
        ∙ ap (λ n. load_from native attributes (at attributes) 0 n half) (sym (fit attributes))
        ∙ (load_from-store_two native h memory at cells chars attributes (λ e. cc) c.char_values
            c.attribute_values 0 start_Stands (omega (arith, fit chars))
            (omega (arith, fit attributes)) (fit chars ∙ sym (fit attributes))).1
    in_place foreground =
        ap (λ n. load_from native foreground (at foreground) 0 n (restore_cells native h c w))
          (sym (fit foreground))
        ∙ (load_from-store_two native h memory at cells foreground background (λ e. cc)
            c.foreground_values c.background_values 0 half-Stands (omega (arith, fit foreground))
            (omega (arith, fit background)) (fit foreground ∙ sym (fit background))).0
    in_place background =
        ap (λ n. load_from native background (at background) 0 n (restore_cells native h c w))
          (sym (fit background))
        ∙ (load_from-store_two native h memory at cells foreground background (λ e. cc)
            c.foreground_values c.background_values 0 half-Stands (omega (arith, fit foreground))
            (omega (arith, fit background)) (fit foreground ∙ sym (fit background))).1

    pub contents-restore_cells :
        (p : Plane) → contents p (restore_cells native h c w) ≡ map (to_element p) (values p c)
    contents-restore_cells p = rw (end_Stands.points p, end_Stands.sized) (in_place p)
