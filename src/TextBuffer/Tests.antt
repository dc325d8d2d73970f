-- ===== src/TextBuffer/Tests.antt =====
-- Text buffer bindings over a native side that records what it is asked.
use opentui_ocaml.Prelude.{
  ℕ, ◌+◌, ◌*◌, ◌^◌, ◌<◌, ◌≡◌, ◌≢◌, refl, true, none, some, List, [], ◌∷◌, arith,
}
use opentui_ocaml.Prelude.Int.{pos, negsuc}
use opentui_ocaml.Status.{ok, invalid_argument, stale_handle}
use opentui_ocaml.Values.{to_uint32}
use opentui_ocaml.TextBuffer.Native.{Command, Query, Attempt, NativeText, StyledChunk, LineInfo}
use opentui_ocaml.TextBuffer.Arguments.{
  ByteArray, read_byte_array, read_styled_chunks, read_highlight,
}
use opentui_ocaml.TextBuffer.Allowed.{IsAllowed, MayAsk, MayTry, IsSized, Keeps}
use opentui_ocaml.TextBuffer.Calls.{Call, run_text_calls, call, handle_of}
use opentui_ocaml.TextBuffer.Calls
use opentui_ocaml.TextBuffer.Buffer.{
  text_buffer_create, text_buffer_append, text_buffer_clear, text_buffer_set_tab_width,
}
use opentui_ocaml.TextBuffer.Styles.{text_buffer_set_styled_text}
use opentui_ocaml.TextBuffer.View.{text_buffer_view_set_wrap_mode}
use opentui_ocaml.TextBuffer.Safety.Calls.{run_text_calls-Good}
use opentui_ocaml.TextBuffer.Refusal.{call-refused}
use opentui_ocaml.TextBuffer.Styled.{
  chunk_list, read_styled_chunks-chunk_list, highlight_value, read_highlight_wraps,
}

data Entry : Type 0 where
  performed : Command → Entry
  asked : Query → Entry
  tried : Attempt → Entry
  selected : ℕ → List ℕ → Entry
  measured : ℕ → ℕ → ℕ → Entry
  lined : ℕ → Entry

abbrev MayHappen : Entry → Type 0
MayHappen (performed c) = IsAllowed c
MayHappen (asked q) = MayAsk q
MayHappen (tried a) = MayTry a
MayHappen (selected h room) = (h ≢ 0) × IsSized room
MayHappen (measured h width height) = (h ≢ 0) × (width < 2 ^ 31) × (height < 2 ^ 31)
MayHappen (lined h) = h ≢ 0

abbrev AllHappen : List Entry → Type 0
AllHappen [] = Unit {0}
AllHappen (e ∷ es) = MayHappen e × AllHappen es

abbrev no_line : LineInfo
no_line = record { start_cols = []; width_cols = []; sources = []; wraps = []; width_cols_max = 0 }

-- Every query is answered by 7, and every attempt succeeds.
abbrev recorder : NativeText
recorder = record {
  World = List Entry;
  perform = λ c w. performed c ∷ w;
  ask = λ q w. (7, asked q ∷ w);
  try = λ a w. (true, tried a ∷ w);
  selected_text = λ h room w. (0, room, selected h room ∷ w);
  measure = λ h width height w. (none, measured h width height ∷ w);
  line_info = λ h w. (no_line, lined h ∷ w);
  logical_line_info = λ h w. (no_line, lined h ∷ w);
}

recorder_keeps : Keeps recorder AllHappen
recorder_keeps = record {
  performs = λ c w a g. (a, g);
  asks = λ q w a g. (a, g);
  tries = λ q w a g. (a, g);
  selects = λ h room w live sized g. ((live, sized), g);
  measures = λ h width height w live a b g. ((live, a, b), g);
  lines = λ h w live g. (live, g);
  logical_lines = λ h w live g. (live, g);
}

abbrev red : StyledChunk
red = record {
  text = 104 ∷ 105 ∷ [];
  fg = some (255 ∷ 0 ∷ 0 ∷ 255 ∷ []);
  bg = none;
  attributes = 3;
  link = none;
}

abbrev bytes : ByteArray
bytes = record { num_dims = 1; dim = pos 2; contents = 104 ∷ 105 ∷ [] }

abbrev session : List Call
session =
    Calls.create (pos 0)
    ∷ Calls.append 7 bytes
    ∷ Calls.set_styled_text 7 (chunk_list (red ∷ []))
    ∷ Calls.set_tab_width 7 (negsuc 0)
    ∷ Calls.clear 0
    ∷ Calls.view_set_wrap_mode 7 (pos 3)
    ∷ []

run_text_calls-Good_example : AllHappen (run_text_calls recorder session [])
run_text_calls-Good_example = run_text_calls-Good recorder AllHappen recorder_keeps session [] tt

session_log :
    run_text_calls recorder session []
    ≡ performed (Command.set_styled_text 7 (red ∷ []))
      ∷ asked (Query.get_byte_size 7)
      ∷ performed (Command.append 7 (104 ∷ 105 ∷ []))
      ∷ asked (Query.get_byte_size 7)
      ∷ asked (Query.create_text_buffer 0)
      ∷ []
unfolding run_text_calls call read_byte_array read_styled_chunks text_buffer_create
    text_buffer_append text_buffer_clear text_buffer_set_styled_text text_buffer_set_tab_width
    text_buffer_view_set_wrap_mode
session_log = refl

abbrev wide : Call
wide = Calls.set_tab_width 7 (pos 256)

call-refused_example :
    ((call recorder wide []).0 ≡ some invalid_argument → (call recorder wide []).1 ≡ [])
    × ((call recorder wide []).0 ≡ some stale_handle → handle_of wide ≡ 0)
    × (handle_of wide ≡ 0
        → ((call recorder wide []).1 ≡ []) × ((call recorder wide []).0 ≢ some ok))
call-refused_example = call-refused recorder wide []

read_styled_chunks-chunk_list_example :
    read_styled_chunks (chunk_list (red ∷ red ∷ [])) ≡ some (red ∷ red ∷ [])
read_styled_chunks-chunk_list_example =
    read_styled_chunks-chunk_list (red ∷ red ∷ []) (omega arith) (omega arith)

read_highlight_wraps_example :
    read_highlight
      (highlight_value (pos 1) (pos 4) (pos 2) (pos (5 + 1 * 2 ^ 32)) (pos (9 + 2 * 2 ^ 32)))
    ≡ some (record {
      start = to_uint32 (pos 1);
      end = to_uint32 (pos 4);
      style_id = to_uint32 (pos 2);
      priority = 5;
      hl_ref = 9;
    })
read_highlight_wraps_example =
    read_highlight_wraps (pos 1) (pos 4) (pos 2) 5 9 1 2 (omega arith) (omega arith)
