-- ===== src/Image/Tests.antt =====
-- Images and buffers over a concrete native side.
use opentui_ocaml.Prelude.{
  ℕ, ◌+◌, ◌*◌, ◌%◌, ◌^◌, ◌<◌, ◌≡◌, ◌≢◌, ◌↔◌, refl, true, ◌&&◌, some, List, [], ◌∷◌, ◌++◌, arith,
  ◌==◌, if◌then◌else◌, ◌⊎◌, inl, inr,
}
use opentui_ocaml.Prelude.Int.{pos, negsuc}
use opentui_ocaml.Yoga.Native.{Double, finite}
use opentui_ocaml.Status.{ok}
use opentui_ocaml.Values.{Value, string, double_array, double, long, custom, block, cons, nil}
use opentui_ocaml.Image.Native.{
  NativeImage, Plane, chars, foreground, background, attributes, Request, Drawing,
}
use opentui_ocaml.Image.Snapshot.{
  buffer_is_valid, buffer_snapshot, buffer_restore, planes_exist, copy_cells,
}
use opentui_ocaml.Image.Snapshot.Memory.{IsMemory, element_bits}
use opentui_ocaml.Image.Snapshot.Restored.{contents}
use opentui_ocaml.Image.Snapshot.RoundTrip.{restore-snapshot}
use opentui_ocaml.Image.Snapshot.Bounds.{restore_in_bounds}
use opentui_ocaml.Image.Operations.{no_info, image_decode}
use opentui_ocaml.Image.Drawing.{buffer_draw_image, buffer_color_matrix_uniform}
use opentui_ocaml.Image.Allowed.{MayMake, MayDraw, Keeps, IsEncoded}
use opentui_ocaml.Image.Calls.{Call, run_image_calls}
use opentui_ocaml.Image.Calls
use opentui_ocaml.Image.Arguments.{read_matrix_and_mask, read_floatarray, read_i32, read_u32}
use opentui_ocaml.Image.Masks.{AreRead, read_matrix_and_mask_iff}
use opentui_ocaml.Image.Safety.{run_image_calls-Good}

abbrev index : Plane → ℕ
index chars = 0
index foreground = 1
index background = 2
index attributes = 3

data Entry : Type 0 where
  made : Request → Entry
  drawn : Drawing Double → Entry
  informed : List ℕ → Entry
  copied : ℕ → ℕ → Entry

-- The cells of the one buffer, and what the image subsystem was asked.
record Side : Type 0 where
  cell : ℕ → ℕ → ℕ
  entries : List Entry

abbrev put : (ℕ → ℕ → ℕ) → ℕ → ℕ → ℕ → ℕ → ℕ → ℕ
put f p i v q j = if p == q && i == j then v else f q j

-- A buffer of one cell with its arrays at the addresses 1 to 4.
abbrev side : NativeImage
side = record {
  World = Side;
  Single = Double;
  to_single = λ d. d;
  buffer_width = λ h w. 1;
  buffer_height = λ h w. 1;
  plane_ptr = λ p h w. index p + 1;
  load = λ p a i w. w.cell (index p) i % 2 ^ element_bits p;
  store = λ p a i v w. record w { cell = put w.cell (index p) i v };
  make = λ r w. ((0, 9), record w { entries = made r ∷ w.entries });
  info = λ b w. ((0, no_info), record w { entries = informed b ∷ w.entries });
  get_info = λ h w. ((0, no_info), w);
  destroy = λ h w. w;
  materialize = λ h w. (0, w);
  ensure_encoded_png = λ h w. (0, w);
  copy_pixels =
      λ h room stride bgra w. ((0, room), record w { entries = copied stride bgra ∷ w.entries });
  draw = λ d w. record w { entries = drawn d ∷ w.entries };
}

mod-lt : (p : Plane) (n : ℕ) → n % 2 ^ element_bits p < 2 ^ element_bits p
mod-lt chars n = omega arith
mod-lt foreground n = omega arith
mod-lt background n = omega arith
mod-lt attributes n = omega arith

mod_small : (p : Plane) (n : ℕ) → n < 2 ^ element_bits p → n % 2 ^ element_bits p ≡ n
mod_small chars n h = omega arith
mod_small foreground n h = omega arith
mod_small background n h = omega arith
mod_small attributes n h = omega arith

put_same : (f : ℕ → ℕ → ℕ) (p i v : ℕ) → put f p i v p i ≡ v
put_same f p i v = ground arith

index-injective : (p q : Plane) → p ≢ q → index p ≢ index q
index-injective chars chars n e = n refl
index-injective chars foreground n e = absurd (omega arith)
index-injective chars background n e = absurd (omega arith)
index-injective chars attributes n e = absurd (omega arith)
index-injective foreground foreground n e = n refl
index-injective foreground chars n e = absurd (omega arith)
index-injective foreground background n e = absurd (omega arith)
index-injective foreground attributes n e = absurd (omega arith)
index-injective background background n e = n refl
index-injective background chars n e = absurd (omega arith)
index-injective background foreground n e = absurd (omega arith)
index-injective background attributes n e = absurd (omega arith)
index-injective attributes attributes n e = n refl
index-injective attributes chars n e = absurd (omega arith)
index-injective attributes foreground n e = absurd (omega arith)
index-injective attributes background n e = absurd (omega arith)

put_other :
    (f : ℕ → ℕ → ℕ) (p q : Plane) (i j v : ℕ)
    → (p ≢ q) ⊎ (i ≢ j)
    → put f (index p) i v (index q) j ≡ f (index q) j
put_other f p q i j v (inl n) = ground (arith, index-injective p q n)
put_other f p q i j v (inr n) = ground arith

side-IsMemory : IsMemory side 5
side-IsMemory = record {
  bounded = λ p a i w. mod-lt p (w.cell (index p) i);
  same = λ p i v w inside small. rw (put_same w.cell (index p) i v) (mod_small p v small);
  other = λ p q i j v w a b apart. rw (put_other w.cell p q i j v apart) refl;
  keeps_array = λ p q i v w inside. refl;
  keeps_width = λ p i v w inside. refl;
  keeps_height = λ p i v w inside. refl;
}

abbrev dark : Side
dark = record { cell = λ p i. 0; entries = [] }

abbrev letter : Side
letter = record { cell = λ p i. 65 + p * 3 + i; entries = [] }

-- Its buffers have the same width in every state.
abbrev MayHappen : Entry → Type 0
MayHappen (made r) = MayMake r
MayHappen (drawn d) = MayDraw side dark d
MayHappen (informed b) = IsEncoded b
MayHappen (copied stride bgra) = stride < 2 ^ 32

abbrev AllHappen : List Entry → Type 0
AllHappen [] = Unit {0}
AllHappen (e ∷ es) = MayHappen e × AllHappen es

side_keeps : Keeps side (λ w. AllHappen w.entries)
side_keeps = record {
  makes = λ r w a g. (a, g);
  informs = λ b w a g. (a, g);
  describes = λ h w g. g;
  destroys = λ h w g. g;
  materializes = λ h w g. g;
  encodes = λ h w g. g;
  copies = λ h room stride bgra w a b g. (a, g);
  draws = λ d w a g. (a, g);
}

-- A position, eight sizes, a protocol and an image.
abbrev drawing : Value
drawing = block 0 (
    cons (custom (negsuc 1)) (
      cons (custom (pos 2)) (
        cons (custom (pos 3)) (
          cons (custom (pos 4)) (
            cons (custom (pos 5)) (
              cons (custom (pos 6)) (
                cons (custom (pos 0)) (
                  cons (custom (pos 0)) (
                    cons (custom (pos 7)) (
                      cons (custom (pos 8))
                        (cons (custom (pos 3)) (cons (custom (pos 9)) nil))))))))))))

abbrev session : List Call
session =
    Calls.decode (string (1 ∷ 2 ∷ []))
    ∷ Calls.decode (string [])
    ∷ Calls.draw_image 5 drawing
    ∷ Calls.color_matrix_uniform 5 (double_array (finite (pos 1) ∷ [])) (double (finite (pos 1)))
        (long (pos 1))
    ∷ []

-- The image is drawn, the bytes that are not there are not decoded, and a matrix of one element is
-- refused.
session_noted :
    (run_image_calls side session dark).entries
    ≡ drawn (
        Drawing.draw_image 5 9 (record {
          x = negsuc 1;
          y = pos 2;
          width = 3;
          height = 4;
          pixel_width = 5;
          pixel_height = 6;
          source_x = 0;
          source_y = 0;
          source_width = 7;
          source_height = 8;
          protocol = 3;
        }))
      ∷ made (Request.decode (1 ∷ 2 ∷ []))
      ∷ []
unfolding run_image_calls Calls.call buffer_color_matrix_uniform read_floatarray buffer_draw_image
    read_i32 read_u32 buffer_is_valid image_decode
session_noted = refl

run_image_calls-Good_example : AllHappen (run_image_calls side session dark).entries
run_image_calls-Good_example =
    run_image_calls-Good side (λ w. AllHappen w.entries) side_keeps session dark tt

letter_snapshot : buffer_snapshot side 5 letter ≡ (ok, copy_cells side 5 1 letter)
unfolding buffer_snapshot
letter_snapshot = refl

arrays_exist : planes_exist side 5 dark ≡ true
unfolding planes_exist
arrays_exist = refl

restore-snapshot_example :
    ((buffer_restore side 5 (copy_cells side 5 1 letter) dark).0 ≡ ok)
    × ((p : Plane)
        → contents side 5 side-IsMemory p
            (buffer_restore side 5 (copy_cells side 5 1 letter) dark).1
          ≡ contents side 5 side-IsMemory p letter)
restore-snapshot_example =
    restore-snapshot side 5 side-IsMemory letter dark (copy_cells side 5 1 letter) letter_snapshot
      refl refl arrays_exist

-- No write changes what the image subsystem was asked.
restore_in_bounds_example :
    AllHappen (buffer_restore side 5 (copy_cells side 5 1 letter) dark).1.entries
    × ((buffer_restore side 5 (copy_cells side 5 1 letter) dark).0 ≢ ok
        → (buffer_restore side 5 (copy_cells side 5 1 letter) dark).1 ≡ dark)
restore_in_bounds_example =
    restore_in_bounds side 5 side-IsMemory (λ w. AllHappen w.entries)
      (λ p i v w there inside small g. g) (copy_cells side 5 1 letter) dark tt

abbrev ones : List Double
ones = finite (pos 1) ∷ finite (pos 1) ∷ finite (pos 1) ∷ finite (pos 1) ∷ []

abbrev sixteen : List Double
sixteen = ones ++ ones ++ ones ++ ones

abbrev triple : List Double
triple = finite (pos 2) ∷ finite (pos 3) ∷ finite (pos 1) ∷ []

read_matrix_and_mask_iff_example :
    (read_matrix_and_mask (λ d. d) (double_array sixteen) (double_array triple)
      ≡ some (sixteen, triple, 1))
    ↔ AreRead (λ d. d) (double_array sixteen) (double_array triple) sixteen triple 1
read_matrix_and_mask_iff_example =
    read_matrix_and_mask_iff (λ d. d) (double_array sixteen) (double_array triple) sixteen triple 1
