-- ===== src/TextBuffer/Behaves.antt =====
-- How a binding of text_buffer_stubs.c behaves on a handle: it keeps what allowed native calls
-- keep, and where it refuses its arguments the native side is not called.
use opentui_ocaml.Prelude.{ℕ, ◌≡◌, ◌≢◌}
use opentui_ocaml.Status.{Status, ok, invalid_argument, stale_handle}

-- From the state `w` to the state `w'`.
pub record Behaves {World : Type 0} (Good : World → Type 0) (h : ℕ) (w : World) (status : Status)
    (w' : World) : Type 0 where
  pub kept : Good w → Good w'
  pub invalid : status ≡ invalid_argument → w' ≡ w
  pub stale : status ≡ stale_handle → h ≡ 0
  pub null : h ≡ 0 → (w' ≡ w) × (status ≢ ok)
