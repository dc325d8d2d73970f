-- ===== src/CellBuffer/Allowed.antt =====
-- Which arguments the native functions behind the buffer bindings of raw_stubs.c may be given: live
-- buffers, unsigned integers that fit their types, colours of four bytes, arrays of the size that
-- is said.
use opentui_ocaml.Prelude.{
  ℕ, ◌+◌, ◌*◌, ◌^◌, ◌≤◌, ◌<◌, ◌≡◌, ◌≢◌, ◌⊎◌, Bool, true, Option, none, some, List, [], ◌∷◌, length,
}
use opentui_ocaml.Prelude.Int.{ℤ}
use opentui_ocaml.Yoga.Native.{Double}
use opentui_ocaml.Status.{ok}
use opentui_ocaml.Readers.{Color}
use opentui_ocaml.Readers.Laws.{IsChannels, IsColor}
use opentui_ocaml.Image.Arguments.{is_finite}
use opentui_ocaml.Image.Allowed.{AllFinite}
use opentui_ocaml.CellBuffer.Native.{
  Spot, BoxStyle, Drawing, NativeBuffer, clear, set_cell, set_cell_blended, draw_text, draw_box,
  draw_view, fill_rect, draw_gray, draw_gray_supersampled, draw_frame, resize, draw_grid,
  push_scissor_rect, pop_scissor_rect, clear_scissor_rects, pop_opacity, clear_opacity,
  push_opacity,
}
use opentui_ocaml.CellBuffer.Request.{Request, refuse, issue}

pub record IsSpot (s : Spot) : Type 0 where
  pub across : s.x < 2 ^ 31
  pub down : s.y < 2 ^ 31
  pub foreground : IsChannels s.fg
  pub background : IsChannels s.bg
  pub attributed : s.attributes < 2 ^ 32

abbrev pub AllCodepoints : List ℕ → Type 0
AllCodepoints [] = Unit {0}
AllCodepoints (n ∷ ns) = (n < 2 ^ 32) × AllCodepoints ns

-- Eleven border characters.
abbrev pub IsBorder : List ℕ → Type 0
IsBorder chars = (length chars ≡ 11) × AllCodepoints chars

abbrev pub IsTitle : Option (List ℕ) → Type 0
IsTitle none = Unit {0}
IsTitle (some bytes) = length bytes < 2 ^ 32

pub record IsBoxStyle (b : BoxStyle) : Type 0 where
  pub bordered : IsBorder b.border_chars
  pub packed : b.packed_options < 2 ^ 32
  pub border : IsChannels b.border_color
  pub background : IsChannels b.background_color
  pub titled : IsChannels b.title_color
  pub above : IsTitle b.title
  pub below : IsTitle b.bottom_title

-- The number of offsets fits 32 bits; there is one more than there are columns, or there are no
-- offsets and no columns.
abbrev pub IsCounted : List ℤ → ℕ → Type 0
IsCounted offsets count =
    (length offsets < 2 ^ 32)
    × ((length offsets ≡ count + 1) ⊎ ((length offsets ≡ 0) × (count ≡ 0)))

module _ (native : NativeBuffer) (w : native.World) where
  open native use {Single, to_single, buffer_width}

  -- A buffer that is there has a width.
  abbrev pub IsLive : ℕ → Type 0
  IsLive h = (h ≢ 0) × (buffer_width h w ≢ 0)

  -- The cells of a grayscale image, row by row.
  abbrev pub IsGray : List Single → ℕ → ℕ → Color → Color → Type 0
  IsGray intensities width height fg bg =
      (length intensities ≡ width * height)
      × AllFinite to_single intensities
      × (width < 2 ^ 31)
      × (height < 2 ^ 31)
      × IsColor fg
      × IsColor bg

  abbrev pub MayDraw : Drawing Single → Type 0
  MayDraw (clear h color) = IsLive h × IsChannels color
  MayDraw (set_cell h character spot) = IsLive h × (character < 2 ^ 32) × IsSpot spot
  MayDraw (set_cell_blended h character spot) = IsLive h × (character < 2 ^ 32) × IsSpot spot
  MayDraw (draw_text h bytes spot) = IsLive h × (length bytes < 2 ^ 32) × IsSpot spot
  MayDraw (draw_box h x y width height style) =
      IsLive h × (width < 2 ^ 31) × (height < 2 ^ 31) × IsBoxStyle style
  MayDraw (draw_view h view x y) = IsLive h × (view ≢ 0)
  MayDraw (fill_rect h x y width height color) =
      IsLive h
      × (x < 2 ^ 31)
      × (y < 2 ^ 31)
      × (width < 2 ^ 31)
      × (height < 2 ^ 31)
      × IsChannels color
  MayDraw (draw_gray h x y intensities width height fg bg) =
      IsLive h × IsGray intensities width height fg bg
  MayDraw (draw_gray_supersampled h x y intensities width height fg bg) =
      IsLive h × IsGray intensities width height fg bg
  MayDraw (draw_frame target x y source sx sy width height) =
      IsLive target
      × IsLive source
      × (sx < 2 ^ 31)
      × (sy < 2 ^ 31)
      × (width < 2 ^ 31)
      × (height < 2 ^ 31)
  MayDraw (resize h width height) =
      IsLive h × (0 < width) × (width < 2 ^ 31) × (0 < height) × (height < 2 ^ 31)
  MayDraw (draw_grid h chars fg bg columns column_count rows row_count options) =
      IsLive h
      × IsBorder chars
      × IsChannels fg
      × IsChannels bg
      × IsCounted columns column_count
      × IsCounted rows row_count
  MayDraw (push_scissor_rect h x y width height) = IsLive h × (width < 2 ^ 31) × (height < 2 ^ 31)
  MayDraw (pop_scissor_rect h) = IsLive h
  MayDraw (clear_scissor_rects h) = IsLive h
  MayDraw (pop_opacity h) = IsLive h
  MayDraw (clear_opacity h) = IsLive h
  MayDraw (push_opacity h opacity) =
      IsLive h × ((d : Double) × (is_finite d ≡ true) × (opacity ≡ to_single d))

  -- A request that is refused does not answer success.
  abbrev pub IsAllowed : Request Single → Type 0
  IsAllowed (refuse status) = status ≢ ok
  IsAllowed (issue d) = MayDraw d

-- A property of the native state that every call with such arguments keeps.
pub record Keeps (native : NativeBuffer) (Good : native.World → Type 0) : Type 0 where
  pub draws :
      (d : Drawing native.Single) (w : native.World)
      → MayDraw native w d
      → Good w
      → Good (native.draw d w)
  pub writes :
      (h : ℕ) (room : List ℕ) (breaks : Bool) (w : native.World)
      → IsLive native w h
      → 0 < length room
      → length room < 2 ^ 32
      → Good w
      → Good (native.write_chars h room breaks w).1
  pub creates :
      (width height : ℕ) (alpha : Bool) (method : ℕ) (id : List ℕ) (w : native.World)
      → (0 < width) × (width < 2 ^ 31) × (0 < height) × (height < 2 ^ 31)
      → method ≤ 1
      → length id < 2 ^ 32
      → Good w
      → Good (native.create_optimized width height alpha method id w).1
  pub destroys : (h : ℕ) (w : native.World) → h ≢ 0 → Good w → Good (native.destroy_optimized h w)
