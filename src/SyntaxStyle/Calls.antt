-- ===== src/SyntaxStyle/Calls.antt =====
-- The bindings of syntax_style_stubs.c as one function.
use opentui_ocaml.Prelude.{ℕ, Option, none, some}
use opentui_ocaml.Status.{Status}
use opentui_ocaml.Values.{Value}
use opentui_ocaml.SyntaxStyle.{
  NativeStyles, syntax_style_create, syntax_style_destroy, syntax_style_register,
  syntax_style_resolve, syntax_style_count,
}

-- A binding with its arguments.
pub data Call : Type 0 where
  create : Call
  destroy : ℕ → Call
  register : ℕ → Value → Value → Value → Value → Call
  resolve : ℕ → Value → Call
  count : ℕ → Call

module _ (native : NativeStyles) where
  open native use {World}

  -- The status, where the binding returns one, and the state afterwards.
  unfoldable pub call : Call → World → Option Status × World
  call create w = let r = syntax_style_create native w in (some r.0.0, r.1)
  call (destroy h) w = (none, syntax_style_destroy native h w)
  call (register h name fg bg attributes) w =
      let r = syntax_style_register native h name fg bg attributes w in (some r.0.0, r.1)
  call (resolve h name) w = let r = syntax_style_resolve native h name w in (some r.0.0, r.1)
  call (count h) w = let r = syntax_style_count native h w in (some r.0.0, r.1)
