-- ===== src/SyntaxStyle/Tests.antt =====
-- Syntax styles on small inputs.
use opentui_ocaml.Prelude.{ℕ, ◌^◌, ◌<◌, ◌≡◌, ◌≢◌, ◌↔◌, refl, Option, none, some, List, [], ◌∷◌}
use opentui_ocaml.Prelude.Int.{pos}
use opentui_ocaml.Values.{Value, block, string, long, custom, nil, cons}
use opentui_ocaml.Readers.{read_color, read_optional_color}
use opentui_ocaml.Readers.Laws.{IsChannels, IsColor}
use opentui_ocaml.SyntaxStyle.{NativeStyles, syntax_style_register}
use opentui_ocaml.SyntaxStyle.Allowed.{IsName, Keeps}
use opentui_ocaml.SyntaxStyle.Calls.{Call, register, call}
use opentui_ocaml.SyntaxStyle.Safety.{Behaves, call-Behaves}
use opentui_ocaml.SyntaxStyle.Laws.{channels, read_color_iff}

abbrev red : List ℕ
red = 255 ∷ 0 ∷ 0 ∷ 255 ∷ []

abbrev red_value : Value
red_value = block 0 (channels red)

read_color_iff_example :
    (read_color red_value ≡ some red)
    ↔ (((tag : ℕ) × (red_value ≡ block tag (channels red))) × IsChannels red)
read_color_iff_example = read_color_iff red_value red

-- A native side that notes what it is asked, and answers 1.
data Entry : Type 0 where
  created : Entry
  destroyed : ℕ → Entry
  registered : ℕ → List ℕ → ℕ → Option (List ℕ) → Option (List ℕ) → ℕ → Entry
  resolved : ℕ → List ℕ → ℕ → Entry
  counted : ℕ → Entry

abbrev recorder : NativeStyles
recorder = record {
  World = List Entry;
  create_syntax_style = λ w. (1, created ∷ w);
  destroy_syntax_style = λ h w. destroyed h ∷ w;
  style_register = λ h name len fg bg attributes w. (1, registered h name len fg bg attributes ∷ w);
  style_resolve_by_name = λ h name len w. (1, resolved h name len ∷ w);
  style_count = λ h w. (0, counted h ∷ w);
}

abbrev MayHappen : Entry → Type 0
MayHappen created = Unit {0}
MayHappen (destroyed h) = h ≢ 0
MayHappen (registered h name len fg bg attributes) =
    (h ≢ 0) × IsName name len × IsColor fg × IsColor bg × (attributes < 2 ^ 32)
MayHappen (resolved h name len) = (h ≢ 0) × IsName name len
MayHappen (counted h) = h ≢ 0

abbrev AllHappen : List Entry → Type 0
AllHappen [] = Unit {0}
AllHappen (e ∷ es) = MayHappen e × AllHappen es

recorder_keeps : Keeps recorder AllHappen
recorder_keeps = record {
  creates = λ w g. (tt, g);
  destroys = λ h w live g. (live, g);
  registers =
      λ h name len fg bg attributes w live named f b small g. ((live, named, f, b, small), g);
  resolves = λ h name len w live named g. ((live, named), g);
  counts = λ h w live g. (live, g);
}

-- A style with a foreground, and the same with a handle that is null.
abbrev style : ℕ → Call
style h =
    register h (string (107 ∷ [])) (block 0 (cons red_value nil)) (long (pos 0)) (custom (pos 1))

style_log : (call recorder (style 5) []).1 ≡ registered 5 (107 ∷ []) 1 (some red) none 1 ∷ []
unfolding call syntax_style_register read_optional_color
style_log = refl

call-Behaves_example : Behaves recorder AllHappen [] (call recorder (style 0) [])
call-Behaves_example = call-Behaves recorder AllHappen recorder_keeps (style 0) []
