-- ===== src/Image/Snapshot/RoundTrip.antt =====
-- A buffer that is restored from a snapshot holds the cells that the snapshot was taken of.
use opentui_ocaml.Prelude.{
  ℕ, ◌-◌, ◌*◌, ◌/◌, ◌^◌, ◌≡◌, refl, sym, ap, ◌∙◌, subst, map, length, true, false, ltb, arith,
}
use opentui_ocaml.Status.{ok}
use opentui_ocaml.Values.{Value}
use opentui_ocaml.Image.Native.{NativeImage, Plane, chars, foreground, background, attributes}
use opentui_ocaml.Image.Snapshot.{
  to_element, copy_cells, buffer_is_valid, too_large, planes_exist, buffer_snapshot, buffer_restore,
  restore_cells,
}
use opentui_ocaml.Image.Snapshot.Memory.{IsMemory, elements}
use opentui_ocaml.Image.Snapshot.Restored.{
  contents, copied, read_snapshot-copy_cells, values, length-load_from, elements-ints,
  contents-restore_cells,
}

module _ (native : NativeImage) (h : ℕ) where
  -- What a snapshot that succeeded has found out, and what it returned.
  record Taken (w : native.World) (snapshot : Value) : Type 0 where
    valid : buffer_is_valid native h w ≡ true
    small : too_large (native.buffer_width h w) (native.buffer_height h w) ≡ false
    sized : ltb ((2 ^ 64 - 1) / 4) (native.buffer_width h w * native.buffer_height h w) ≡ false
    copy : snapshot ≡ copy_cells native h (native.buffer_width h w * native.buffer_height h w) w

  snapshot-Taken :
      (w : native.World) (snapshot : Value)
      → buffer_snapshot native h w ≡ (ok, snapshot)
      → Taken w snapshot
  unfolding buffer_snapshot
  snapshot-Taken w snapshot e = ground arith

  module _ (memory : IsMemory native h) where
    copied-fits :
        (w : native.World) (p : Plane) (n : ℕ)
        → length (values native h memory p (copied native h memory n w)) ≡ elements p n
    unfolding values copied
    copied-fits w chars n = length-load_from native h memory chars _ 0 n w
    copied-fits w foreground n = length-load_from native h memory foreground _ 0 (n * 4) w
    copied-fits w background n = length-load_from native h memory background _ 0 (n * 4) w
    copied-fits w attributes n = length-load_from native h memory attributes _ 0 n w

    elements-copied :
        (w : native.World) (p : Plane)
        → map (to_element p) (
            values native h memory p
              (copied native h memory (native.buffer_width h w * native.buffer_height h w) w))
          ≡ contents native h memory p w
    unfolding values copied
    elements-copied w chars = elements-ints native h memory chars _ 0 _ w
    elements-copied w foreground = elements-ints native h memory foreground _ 0 _ w
    elements-copied w background = elements-ints native h memory background _ 0 _ w
    elements-copied w attributes = elements-ints native h memory attributes _ 0 _ w

    still_valid :
        (w w' : native.World)
        → native.buffer_width h w' ≡ native.buffer_width h w
        → buffer_is_valid native h w ≡ true
        → buffer_is_valid native h w' ≡ true
    unfolding buffer_is_valid
    still_valid w w' width valid = rw width valid

    restore-copy :
        (w w' : native.World)
        → Taken w (copy_cells native h (native.buffer_width h w * native.buffer_height h w) w)
        → native.buffer_width h w' ≡ native.buffer_width h w
        → native.buffer_height h w' ≡ native.buffer_height h w
        → planes_exist native h w' ≡ true
        → let cells = native.buffer_width h w * native.buffer_height h w in
          buffer_restore native h (copy_cells native h cells w) w'
          ≡ (ok, restore_cells native h (copied native h memory cells w) w')
    unfolding buffer_restore copy_cells
    restore-copy w w' t width height exist =
        let valid = still_valid w w' width t.valid in
        rw
          (
            valid,
            width,
            height,
            t.small,
            t.sized,
            read_snapshot-copy_cells native h memory
                (native.buffer_width h w * native.buffer_height h w) w,
            exist,
          )
          refl

    -- A buffer that is restored from a snapshot of an earlier state, with the size that it had then
    -- and arrays that exist, holds in each of its arrays what it held then, if the arrays are
    -- memory that keeps what is written.
    pub restore-snapshot :
        (w w' : native.World) (snapshot : Value)
        → buffer_snapshot native h w ≡ (ok, snapshot)
        → native.buffer_width h w' ≡ native.buffer_width h w
        → native.buffer_height h w' ≡ native.buffer_height h w
        → planes_exist native h w' ≡ true
        → ((buffer_restore native h snapshot w').0 ≡ ok)
          × ((p : Plane)
              → contents native h memory p (buffer_restore native h snapshot w').1
                ≡ contents native h memory p w)
    restore-snapshot w w' snapshot e width height exist =
        let t = snapshot-Taken w snapshot e in
        let cells = native.buffer_width h w * native.buffer_height h w in
        let c = copied native h memory cells w in
        let t' = subst (Taken w) t.copy t in
        let run = restore-copy w w' t' width height exist in
        let same : native.buffer_width h w' * native.buffer_height h w' ≡ cells =
          rw (width, height) refl in
        let fit = λ (p : Plane). copied-fits w p cells ∙ ap (elements p) (sym same) in
        rw (t.copy, run)
          (refl, λ p. contents-restore_cells native h memory c w' fit p ∙ elements-copied w p)
