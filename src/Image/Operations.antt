-- ===== src/Image/Operations.antt =====
-- The bindings of image_stubs.c on images. A status is the number of the native image subsystem;
-- 7 is the one that the bindings answer where they refuse an argument.
use opentui_ocaml.Prelude.{
  ℕ, ◌-◌, ◌^◌, not, ◌&&◌, Option, none, some, List, ◌==◌, leb, if◌then◌else◌, found, length,
}
use opentui_ocaml.Prelude.Int.{pos, negsuc}
use opentui_ocaml.Values.{Value, has_fields, field, string_val, long_val}
use opentui_ocaml.Image.Native.{
  NativeImage, ImageInfo, Request, decode, create_from_rgba, retain, clone, resize, extract, extend,
  transform, composite,
}
use opentui_ocaml.Image.Arguments.{read_u32, read_i32, read_byte_array}

-- The status of a refused argument.
abbrev pub refused : ℕ
refused = 7

-- The information that goes with a refusal, `opentui_external_image_info info = {0}`.
abbrev pub no_info : ImageInfo
no_info = record {
  width = 0;
  height = 0;
  source_width = 0;
  source_height = 0;
  format = 0;
  color_status = 0;
  orientation = 0;
  has_alpha = 0;
}

-- The bytes of an encoded image: a string that is not empty and has a 32-bit length.
unfoldable pub encoded_bytes : Value → Option (List ℕ)
encoded_bytes v = found (string_val v) none (λ bytes.
    if not (length bytes == 0) && leb (length bytes) (2 ^ 32 - 1) then some bytes else none)

-- `0 <= n <= bound` for an immediate integer
unfoldable pub read_small : Value → ℕ → ℕ → Option ℕ
read_small v low high =
    found (long_val v) none
      (λ n. elim n [ pos k ↦ if leb low k && leb k high then some k else none | negsuc k ↦ none ])

-- The arguments of the operations that take a tuple, as a request of the native side.
unfoldable pub resize_request : ℕ → Value → Option Request
resize_request h args =
    if has_fields args 3
    then found (read_u32 (field args 0)) none (λ width.
      found (read_u32 (field args 1)) none (λ height.
        found (read_u32 (field args 2)) none (λ filter. some (resize h width height filter))))
    else none

unfoldable pub extract_request : ℕ → Value → Option Request
extract_request h args =
    if has_fields args 4
    then found (read_u32 (field args 0)) none (λ left. found (read_u32 (field args 1)) none (λ top.
      found (read_u32 (field args 2)) none (λ width.
        found (read_u32 (field args 3)) none (λ height. some (extract h left top width height)))))
    else none

unfoldable pub extend_request : ℕ → Value → Option Request
extend_request h args =
    if has_fields args 5
    then found (read_u32 (field args 0)) none (λ top. found (read_u32 (field args 1)) none (λ right.
      found (read_u32 (field args 2)) none (λ bottom. found (read_u32 (field args 3)) none (λ left.
        found (read_byte_array (field args 4)) none
          (λ background. some (extend h top right bottom left background))))))
    else none

unfoldable pub composite_request : ℕ → ℕ → Value → Option Request
unfolding read_small
composite_request base overlay args =
    if has_fields args 4
    then found (read_i32 (field args 0)) none (λ left. found (read_i32 (field args 1)) none (λ top.
      found (read_u32 (field args 2)) none (λ blend.
        found (read_small (field args 3) 0 255) none
          (λ opacity. some (composite base overlay left top blend opacity)))))
    else none

unfoldable pub rgba_request : Value → Value → Value → Value → Option Request
rgba_request pixels width_value height_value stride_value = found (string_val pixels) none (λ bytes.
    found (read_u32 width_value) none (λ width. found (read_u32 height_value) none (λ height.
      found (read_u32 stride_value) none
        (λ stride. some (create_from_rgba bytes width height stride)))))

module _ (native : NativeImage) where
  open native use {
    World, make, info, get_info, destroy, materialize, ensure_encoded_png, copy_pixels,
  }

  -- The call of the native side, or the refusal, with the handle 0.
  unfoldable pub make_or_refuse : Option Request → World → (ℕ × ℕ) × World
  make_or_refuse none w = ((refused, 0), w)
  make_or_refuse (some request) w = make request w

  unfoldable pub image_info : Value → World → (ℕ × ImageInfo) × World
  unfolding encoded_bytes
  image_info v w = found (encoded_bytes v) ((refused, no_info), w) (λ bytes. info bytes w)

  unfoldable pub image_decode : Value → World → (ℕ × ℕ) × World
  unfolding make_or_refuse encoded_bytes
  image_decode v w = make_or_refuse (found (encoded_bytes v) none (λ bytes. some (decode bytes))) w

  unfoldable pub image_create_from_rgba : Value → Value → Value → Value → World → (ℕ × ℕ) × World
  unfolding make_or_refuse rgba_request
  image_create_from_rgba pixels width height stride w =
      make_or_refuse (rgba_request pixels width height stride) w

  unfoldable pub image_destroy : ℕ → World → World
  image_destroy h w = destroy h w

  unfoldable pub image_retain : ℕ → World → (ℕ × ℕ) × World
  image_retain h w = make (retain h) w

  unfoldable pub image_get_info : ℕ → World → (ℕ × ImageInfo) × World
  image_get_info h w = get_info h w

  unfoldable pub image_materialize : ℕ → World → ℕ × World
  image_materialize h w = materialize h w

  unfoldable pub image_ensure_encoded_png : ℕ → World → ℕ × World
  image_ensure_encoded_png h w = ensure_encoded_png h w

  unfoldable pub image_unary_handle : ℕ → (ℕ → Request) → World → (ℕ × ℕ) × World
  image_unary_handle h operation w = make (operation h) w

  unfoldable pub image_clone : ℕ → World → (ℕ × ℕ) × World
  unfolding image_unary_handle
  image_clone h w = image_unary_handle h clone w

  -- The status and the bytes of the destination afterwards; no string is refused as none.
  unfoldable pub image_copy_pixels :
      ℕ → Value → Value → Value → World → (ℕ × Option (List ℕ)) × World
  unfolding read_small
  image_copy_pixels h destination_value stride_value bgra_value w =
      found (string_val destination_value) ((refused, none), w)
        (λ destination.
          found (read_u32 stride_value) ((refused, some destination), w)
            (λ stride.
              found (read_small bgra_value 0 1) ((refused, some destination), w)
                (λ bgra.
                  let copied = copy_pixels h destination stride bgra w in
                  ((copied.0.0, some copied.0.1), copied.1))))

  unfoldable pub image_resize : ℕ → Value → World → (ℕ × ℕ) × World
  unfolding make_or_refuse resize_request
  image_resize h args w = make_or_refuse (resize_request h args) w

  unfoldable pub image_extract : ℕ → Value → World → (ℕ × ℕ) × World
  unfolding make_or_refuse extract_request
  image_extract h args w = make_or_refuse (extract_request h args) w

  unfoldable pub image_extend : ℕ → Value → World → (ℕ × ℕ) × World
  unfolding make_or_refuse extend_request
  image_extend h args w = make_or_refuse (extend_request h args) w

  unfoldable pub image_transform : ℕ → Value → World → (ℕ × ℕ) × World
  unfolding make_or_refuse
  image_transform h operation_value w =
      make_or_refuse (found (read_u32 operation_value) none (λ n. some (transform h n))) w

  unfoldable pub image_composite : ℕ → ℕ → Value → World → (ℕ × ℕ) × World
  unfolding make_or_refuse composite_request
  image_composite base overlay args w = make_or_refuse (composite_request base overlay args) w
