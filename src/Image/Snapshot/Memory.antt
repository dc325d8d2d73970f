-- ===== src/Image/Snapshot/Memory.antt =====
-- The memory behind the arrays of a buffer, and what the loops of image_stubs.c do to it.
use opentui_ocaml.Prelude.{ℕ, ◌*◌, ◌^◌, ◌<◌, ◌≡◌, ◌≢◌, sym, ◌∙◌, ◌⊎◌, arith, subst}
use opentui_ocaml.Prelude.Int.{ℤ}
use opentui_ocaml.Values.{to_uint32-lt}
use opentui_ocaml.Image.Native.{NativeImage, Plane, chars, foreground, background, attributes}
use opentui_ocaml.Image.Snapshot.{to_element}

-- The bits of an element, and the number of elements for a number of cells.
abbrev pub element_bits : Plane → ℕ
element_bits chars = 32
element_bits foreground = 16
element_bits background = 16
element_bits attributes = 32

abbrev pub elements : Plane → ℕ → ℕ
elements chars cells = cells
elements foreground cells = cells * 4
elements background cells = cells * 4
elements attributes cells = cells

-- What C memory is, for the four arrays of a live buffer: an element that is written within its
-- array reads back, every other element of the arrays stays, and the buffer keeps its size and its
-- arrays.
pub record IsMemory (native : NativeImage) (h : ℕ) : Type 0 where
  pub bounded : (p : Plane) (a i : ℕ) (w : native.World) → native.load p a i w < 2 ^ element_bits p
  pub same :
      (p : Plane) (i v : ℕ) (w : native.World)
      → i < elements p (native.buffer_width h w * native.buffer_height h w)
      → v < 2 ^ element_bits p
      → native.load p (native.plane_ptr p h w) i (native.store p (native.plane_ptr p h w) i v w) ≡ v
  pub other :
      (p q : Plane) (i j v : ℕ) (w : native.World)
      → i < elements p (native.buffer_width h w * native.buffer_height h w)
      → j < elements q (native.buffer_width h w * native.buffer_height h w)
      → (p ≢ q) ⊎ (i ≢ j)
      → native.load q (native.plane_ptr q h w) j (native.store p (native.plane_ptr p h w) i v w)
        ≡ native.load q (native.plane_ptr q h w) j w
  pub keeps_array :
      (p q : Plane) (i v : ℕ) (w : native.World)
      → i < elements p (native.buffer_width h w * native.buffer_height h w)
      → native.plane_ptr q h (native.store p (native.plane_ptr p h w) i v w)
        ≡ native.plane_ptr q h w
  pub keeps_width :
      (p : Plane) (i v : ℕ) (w : native.World)
      → i < elements p (native.buffer_width h w * native.buffer_height h w)
      → native.buffer_width h (native.store p (native.plane_ptr p h w) i v w)
        ≡ native.buffer_width h w
  pub keeps_height :
      (p : Plane) (i v : ℕ) (w : native.World)
      → i < elements p (native.buffer_width h w * native.buffer_height h w)
      → native.buffer_height h (native.store p (native.plane_ptr p h w) i v w)
        ≡ native.buffer_height h w

pub to_element-lt : (p : Plane) (n : ℤ) → to_element p n < 2 ^ element_bits p
unfolding to_element
to_element-lt chars n = to_uint32-lt n
to_element-lt foreground n = omega arith
to_element-lt background n = omega arith
to_element-lt attributes n = to_uint32-lt n

module _ (native : NativeImage) (h : ℕ) (memory : IsMemory native h) (at : Plane → ℕ)
    (cells : ℕ) where
  -- The buffer has its arrays at known addresses, and a known number of cells.
  pub record Stands (w : native.World) : Type 0 where
    pub points : (p : Plane) → native.plane_ptr p h w ≡ at p
    pub sized : native.buffer_width h w * native.buffer_height h w ≡ cells

  module _ {w : native.World} (s : Stands w) (p : Plane) (i v : ℕ)
      (inside : i < elements p cells) where
    fits : i < elements p (native.buffer_width h w * native.buffer_height h w)
    fits = subst (λ c. i < elements p c) (sym s.sized) inside

    pub store-Stands : Stands (native.store p (at p) i v w)
    store-Stands =
        subst (λ a. Stands (native.store p a i v w)) (s.points p)
          (record {
            points = λ q. memory.keeps_array p q i v w fits ∙ s.points q;
            sized = rw (memory.keeps_width p i v w fits, memory.keeps_height p i v w fits) s.sized;
          })

    pub load-store_same :
        v < 2 ^ element_bits p → native.load p (at p) i (native.store p (at p) i v w) ≡ v
    load-store_same small =
        subst (λ a. native.load p a i (native.store p a i v w) ≡ v) (s.points p)
          (memory.same p i v w fits small)

    pub load-store_other :
        (q : Plane) (j : ℕ)
        → j < elements q cells
        → (p ≢ q) ⊎ (i ≢ j)
        → native.load q (at q) j (native.store p (at p) i v w) ≡ native.load q (at q) j w
    load-store_other q j near apart =
        subst (λ a. native.load q (at q) j (native.store p a i v w) ≡ native.load q (at q) j w)
          (s.points p)
          (subst
            (λ b.
              native.load q b j (native.store p (native.plane_ptr p h w) i v w)
              ≡ native.load q b j w)
            (s.points q)
            (memory.other p q i j v w fits (subst (λ c. j < elements q c) (sym s.sized) near)
              apart))
