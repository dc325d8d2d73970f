-- ===== src/TextBuffer/Refusal.antt =====
-- What a refused call of text_buffer_stubs.c leaves alone.
use opentui_ocaml.Prelude.{◌≡◌, ◌≢◌, some}
use opentui_ocaml.Status.{ok, invalid_argument, stale_handle}
use opentui_ocaml.TextBuffer.Native.{NativeText}
use opentui_ocaml.TextBuffer.Allowed.{Keeps}
use opentui_ocaml.TextBuffer.Calls.{Call, handle_of, call}
use opentui_ocaml.TextBuffer.Safety.Calls.{call-Conforms}

abbrev nothing_kept : (native : NativeText) → Keeps native (λ w. Unit {0})
nothing_kept native = record {
  performs = λ c w a g. tt;
  asks = λ q w a g. tt;
  tries = λ q w a g. tt;
  selects = λ h room w live sized g. tt;
  measures = λ h width height w live a b g. tt;
  lines = λ h w live g. tt;
  logical_lines = λ h w live g. tt;
}

-- A call that answers that an argument is invalid has not touched the native side; a call answers
-- that the handle is stale only where the handle is null; and a call with a null handle has not
-- touched the native side and does not report success.
pub call-refused :
    (native : NativeText) (c : Call) (w : native.World)
    → ((call native c w).0 ≡ some invalid_argument → (call native c w).1 ≡ w)
      × ((call native c w).0 ≡ some stale_handle → handle_of c ≡ 0)
      × (handle_of c ≡ 0 → ((call native c w).1 ≡ w) × ((call native c w).0 ≢ some ok))
call-refused native c w =
    let r = call-Conforms native (λ w. Unit {0}) (nothing_kept native) c w in
    (r.invalid, r.stale, r.null)
