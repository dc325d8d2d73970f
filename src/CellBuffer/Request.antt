-- ===== src/CellBuffer/Request.antt =====
-- A drawing binding of raw_stubs.c either answers a status, or makes one native call and answers
-- success.
use opentui_ocaml.Prelude.{ℕ, Bool, not, ◌&&◌, Option, if◌then◌else◌, found, ◌==◌}
use opentui_ocaml.Status.{Status, ok, invalid_argument, stale_handle}
use opentui_ocaml.CellBuffer.Native.{Drawing, NativeBuffer}

pub data Request (Single : Type 0) : Type 0 where
  refuse : Status → Request Single
  issue : Drawing Single → Request Single

module _ (native : NativeBuffer) where
  open native use {World, Single, buffer_width, draw}

  unfoldable pub execute : Request Single → World → Status × World
  execute (refuse status) w = (status, w)
  execute (issue d) w = (ok, draw d w)

  unfoldable pub buffer_is_valid : ℕ → World → Bool
  buffer_is_valid h w = not (h == 0) && not (buffer_width h w == 0)

  -- `if (!buffer_is_valid(handle)) return stale`
  abbrev pub on_valid : ℕ → World → Request Single → Request Single
  on_valid h w r = if buffer_is_valid h w then r else refuse stale_handle

-- `if (!test) return invalid`, and the same for a reader.
abbrev pub requiring : {Single : Type 0} → Bool → Request Single → Request Single
requiring test r = if test then r else refuse invalid_argument

abbrev pub reading : {Single A : Type 0} → Option A → (A → Request Single) → Request Single
reading o f = found o (refuse invalid_argument) f
