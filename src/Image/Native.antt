-- ===== src/Image/Native.antt =====
-- What image_stubs.c calls: images and cell buffers of the native library behind
-- native/opentui_abi.h. A request names the native function with the arguments that it is given.
use opentui_ocaml.Prelude.{ℕ, List}
use opentui_ocaml.Prelude.Int.{ℤ}
use opentui_ocaml.Yoga.Native.{Double}

-- `opentui_external_image_info`
pub record ImageInfo : Type 0 where
  pub width : ℕ
  pub height : ℕ
  pub source_width : ℕ
  pub source_height : ℕ
  pub format : ℕ
  pub color_status : ℕ
  pub orientation : ℕ
  pub has_alpha : ℕ

-- `opentui_external_image_draw_options`
pub record DrawOptions : Type 0 where
  pub x : ℤ
  pub y : ℤ
  pub width : ℕ
  pub height : ℕ
  pub pixel_width : ℕ
  pub pixel_height : ℕ
  pub source_x : ℕ
  pub source_y : ℕ
  pub source_width : ℕ
  pub source_height : ℕ
  pub protocol : ℕ

-- The four arrays of a cell buffer. Characters and attributes are 32 bits, and colours are 16, four
-- to a cell.
pub data Plane : Type 0 where
  chars foreground background attributes : Plane

-- The native functions that make an image through an output parameter; bytes go with their length.
pub data Request : Type 0 where
  decode : List ℕ → Request
  create_from_rgba : List ℕ → ℕ → ℕ → ℕ → Request
  retain clone : ℕ → Request
  resize : ℕ → ℕ → ℕ → ℕ → Request
  extract : ℕ → ℕ → ℕ → ℕ → ℕ → Request
  extend : ℕ → ℕ → ℕ → ℕ → ℕ → List ℕ → Request
  transform : ℕ → ℕ → Request
  composite : ℕ → ℕ → ℤ → ℤ → ℕ → ℕ → Request

-- The native functions that answer nothing that the bindings use.
pub data Drawing (Single : Type 0) : Type 0 where
  draw_image : ℕ → ℕ → DrawOptions → Drawing Single
  color_matrix : ℕ → List Single → List Single → ℕ → Single → ℕ → Drawing Single
  color_matrix_uniform : ℕ → List Single → Single → ℕ → Drawing Single

-- A pointer is an address, and 0 is NULL; `load` and `store` reach an element of an array by its
-- address and index. `make` answers a status and a handle, which is 0 unless the call stores one.
-- `copy_pixels` overwrites the bytes that it is given.
pub record NativeImage : Type 1 where
  pub World : Type 0
  pub Single : Type 0
  pub to_single : Double → Single
  pub buffer_width : ℕ → World → ℕ
  pub buffer_height : ℕ → World → ℕ
  pub plane_ptr : Plane → ℕ → World → ℕ
  pub load : Plane → ℕ → ℕ → World → ℕ
  pub store : Plane → ℕ → ℕ → ℕ → World → World
  pub make : Request → World → (ℕ × ℕ) × World
  pub info : List ℕ → World → (ℕ × ImageInfo) × World
  pub get_info : ℕ → World → (ℕ × ImageInfo) × World
  pub destroy : ℕ → World → World
  pub materialize : ℕ → World → ℕ × World
  pub ensure_encoded_png : ℕ → World → ℕ × World
  pub copy_pixels : ℕ → List ℕ → ℕ → ℕ → World → (ℕ × List ℕ) × World
  pub draw : Drawing Single → World → World
