-- ===== src/Image/Snapshot.antt =====
-- The bindings of image_stubs.c that copy the cells of a buffer out and back.
pub mod Memory
pub mod Loops
pub mod Restored
pub mod RoundTrip
pub mod Bounds
use opentui_ocaml.Prelude.{
  ℕ, zero, suc, ◌+◌, ◌-◌, ◌*◌, ◌/◌, ◌%◌, ◌^◌, Bool, true, false, not, ◌&&◌, ◌||◌, Option, none,
  some, List, [], ◌∷◌, ◌==◌, leb, ltb, if◌then◌else◌, found, map,
}
use opentui_ocaml.Prelude.Int.{ℤ}
use opentui_ocaml.Status.{Status, ok, invalid_argument, stale_handle, output_too_small}
use opentui_ocaml.Values.{Value, block, Fields, nil, cons, has_fields, field, to_uint32, to_int32}
use opentui_ocaml.Image.Native.{NativeImage, Plane, chars, foreground, background, attributes}
use opentui_ocaml.Image.Arguments.{make_int32_array, read_int32_array_values}

-- What `opentui_raw_buffer_restore` reads of the snapshot.
pub record Cells : Type 0 where
  pub char_values : List ℤ
  pub foreground_values : List ℤ
  pub background_values : List ℤ
  pub attribute_values : List ℤ

unfoldable pub read_snapshot : Value → ℕ → Option Cells
read_snapshot v cells = found (read_int32_array_values (field v 0) cells) none (λ cs.
    found (read_int32_array_values (field v 1) (cells * 4)) none (λ fs.
      found (read_int32_array_values (field v 2) (cells * 4)) none (λ bs.
        found (read_int32_array_values (field v 3) cells) none (λ ats. some (record {
          char_values = cs;
          foreground_values = fs;
          background_values = bs;
          attribute_values = ats;
        })))))

-- `(uint32_t)` or `(uint16_t)` of an `int32_t`, by the element type of the array.
unfoldable pub to_element : Plane → ℤ → ℕ
to_element chars n = to_uint32 n
to_element foreground n = to_uint32 n % 2 ^ 16
to_element background n = to_uint32 n % 2 ^ 16
to_element attributes n = to_uint32 n

-- The snapshot that goes with an error: four empty arrays.
unfoldable pub no_snapshot : Value
unfolding make_int32_array
no_snapshot =
    let empty = make_int32_array [] in
    block 0 (cons empty (cons empty (cons empty (cons empty nil))))

-- `width * height` does not fit 32 bits.
unfoldable pub too_large : ℕ → ℕ → Bool
too_large width height = not (height == 0) && ltb ((2 ^ 32 - 1) / height) width

module _ (native : NativeImage) where
  open native use {World, buffer_width, buffer_height, plane_ptr, load, store}

  unfoldable pub buffer_is_valid : ℕ → World → Bool
  buffer_is_valid h w = not (h == 0) && not (buffer_width h w == 0)

  unfoldable pub planes_exist : ℕ → World → Bool
  planes_exist h w =
      not (plane_ptr chars h w == 0)
      && not (plane_ptr foreground h w == 0)
      && not (plane_ptr background h w == 0)
      && not (plane_ptr attributes h w == 0)

  -- The elements from an index on, as many as `count` says.
  unfoldable pub load_from : Plane → ℕ → ℕ → ℕ → World → List ℕ
  load_from p ptr start zero w = []
  load_from p ptr start (suc count) w = load p ptr start w ∷ load_from p ptr (start + 1) count w

  unfoldable pub plane_values : Plane → ℕ → ℕ → World → Value
  unfolding load_from make_int32_array
  plane_values p h count w =
      make_int32_array (map to_int32 (load_from p (plane_ptr p h w) 0 count w))

  unfoldable pub copy_cells : ℕ → ℕ → World → Value
  unfolding plane_values
  copy_cells h cells w = block 0 (
      cons (plane_values chars h cells w) (
        cons (plane_values foreground h (cells * 4) w) (
          cons (plane_values background h (cells * 4) w)
            (cons (plane_values attributes h cells w) nil))))

  unfoldable pub buffer_snapshot : ℕ → World → Status × Value
  unfolding buffer_is_valid too_large planes_exist copy_cells no_snapshot
  buffer_snapshot h w =
      let width = buffer_width h w in
      let height = buffer_height h w in
      if not (buffer_is_valid h w) || too_large width height
      then (stale_handle, no_snapshot)
      else let cells = width * height in
        if ltb ((2 ^ 64 - 1) / 4) cells
        then (output_too_small, no_snapshot)
        else if planes_exist h w
        then (ok, copy_cells h cells w)
        else (stale_handle, no_snapshot)

  -- One loop of the restoring: elements of two arrays, index by index.
  unfoldable pub store_two : (p : Plane) → ℕ → (q : Plane) → ℕ → ℕ → List ℤ → List ℤ → World → World
  unfolding to_element
  store_two p a q b start (x ∷ xs) (y ∷ ys) w =
      store_two p a q b (start + 1) xs ys
        (store q b start (to_element q y) (store p a start (to_element p x) w))
  store_two p a q b start _ _ w = w

  unfoldable pub restore_cells : ℕ → Cells → World → World
  unfolding store_two
  restore_cells h c w =
      store_two foreground (plane_ptr foreground h w) background (plane_ptr background h w) 0
        c.foreground_values c.background_values
        (store_two chars (plane_ptr chars h w) attributes (plane_ptr attributes h w) 0 c.char_values
          c.attribute_values w)

  unfoldable pub buffer_restore : ℕ → Value → World → Status × World
  unfolding buffer_is_valid too_large planes_exist restore_cells read_snapshot
  buffer_restore h snapshot w =
      let width = buffer_width h w in
      let height = buffer_height h w in
      let cells = width * height in
      if not (has_fields snapshot 4)
      then (invalid_argument, w)
      else if not (buffer_is_valid h w)
      then (stale_handle, w)
      else if too_large width height || ltb ((2 ^ 64 - 1) / 4) cells
      then (invalid_argument, w)
      else found (read_snapshot snapshot cells) (invalid_argument, w)
          (λ c. if planes_exist h w then (ok, restore_cells h c w) else (invalid_argument, w))
