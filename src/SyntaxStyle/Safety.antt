-- ===== src/SyntaxStyle/Safety.antt =====
-- The bindings of syntax_style_stubs.c keep whatever allowed calls of the native side keep, and
-- where they refuse their arguments the native side is not called.
use opentui_ocaml.Prelude.{
  ℕ, ◌%◌, ◌^◌, ◌≡◌, ◌≢◌, Option, some, List, arith, length, Option-cases, inl, inr,
}
use opentui_ocaml.Status.{Status, invalid_argument, stale_handle}
use opentui_ocaml.Prelude.Int.{ℤ}
use opentui_ocaml.Values.{Value, string_val, int32_val, to_uint32, to_uint32-lt}
use opentui_ocaml.Readers.{read_optional_color}
use opentui_ocaml.Readers.Laws.{IsColor, read_optional_color-IsColor}
use opentui_ocaml.SyntaxStyle.{
  NativeStyles, syntax_style_create, syntax_style_destroy, register_checked, syntax_style_register,
  syntax_style_resolve, syntax_style_count,
}
use opentui_ocaml.SyntaxStyle.Allowed.{IsName, Keeps}
use opentui_ocaml.SyntaxStyle.Calls.{Call, create, destroy, register, resolve, count, call}

length-IsName : (name : List ℕ) → IsName name (length name % 2 ^ 32)
length-IsName name = (omega arith, omega arith)

module _ (native : NativeStyles) (Good : native.World → Type 0) where
  -- From the state `w`: what is good stays good, and a refusal leaves the state as it is.
  abbrev pub Behaves : native.World → Option Status × native.World → Type 0
  Behaves w r =
      (Good w → Good r.1)
      × ((r.0 ≡ some invalid_argument) → r.1 ≡ w)
      × ((r.0 ≡ some stale_handle) → r.1 ≡ w)

module _ (native : NativeStyles) (Good : native.World → Type 0) (keeps : Keeps native Good) where
  create-Behaves : (w : native.World) → Behaves native Good w (call native create w)
  unfolding call syntax_style_create
  create-Behaves w = ground (arith, keeps.creates w)

  destroy-Behaves : (h : ℕ) (w : native.World) → Behaves native Good w (call native (destroy h) w)
  unfolding call syntax_style_destroy
  destroy-Behaves h w = ground (arith, keeps.destroys h w)

  resolve-Behaves :
      (h : ℕ) (v : Value) (w : native.World) → Behaves native Good w (call native (resolve h v) w)
  unfolding call syntax_style_resolve
  resolve-Behaves h v w = elim (Option-cases (string_val v)) [
    | inl e ↦ ground (arith, e)
    | inr (name, e) ↦
        ground (arith, e, length-IsName name, keeps.resolves h name (length name % 2 ^ 32) w)
  ]

  count-Behaves : (h : ℕ) (w : native.World) → Behaves native Good w (call native (count h) w)
  unfolding call syntax_style_count
  count-Behaves h w = ground (arith, keeps.counts h w)

  register_checked-Behaves :
      (h : ℕ) (name : List ℕ) (fg bg : Option (List ℕ)) (n : ℤ) (w : native.World)
      → h ≢ 0
      → IsColor fg
      → IsColor bg
      → let r = register_checked native h name fg bg n w in Behaves native Good w (some r.0.0, r.1)
  unfolding register_checked
  register_checked-Behaves h name fg bg n w live f b = ground (
    arith,
    keeps.registers h name (length name % 2 ^ 32) fg bg (to_uint32 n) w live (length-IsName name) f
        b (to_uint32-lt n),
  )

  register-Behaves :
      (h : ℕ) (v a b c : Value) (w : native.World)
      → Behaves native Good w (call native (register h v a b c) w)
  unfolding call syntax_style_register
  register-Behaves h v a b c w = elim (Option-cases (string_val v)) [
    | inl e ↦ ground (arith, e)
    | inr (name, en) ↦ elim (Option-cases (read_optional_color a)) [
      | inl e ↦ ground (arith, en, e)
      | inr (fg, ef) ↦ elim (Option-cases (read_optional_color b)) [
        | inl e ↦ ground (arith, en, ef, e)
        | inr (bg, eb) ↦
            let checked = λ (live : h ≢ 0).
              register_checked-Behaves h name fg bg (int32_val c) w live
                (read_optional_color-IsColor a ef) (read_optional_color-IsColor b eb) in
            ground (arith, en, ef, eb, checked)
      ]
    ]
  ]

  -- Each binding on syntax styles keeps whatever property of the native state the allowed calls
  -- keep, whatever its arguments are: no null handle, names with a length within their bytes,
  -- colours of four bytes or null, and 32-bit attributes. Where its status is that an argument is
  -- invalid or a handle stale, the native side was not called.
  pub call-Behaves : (c : Call) (w : native.World) → Behaves native Good w (call native c w)
  call-Behaves create w = create-Behaves w
  call-Behaves (destroy h) w = destroy-Behaves h w
  call-Behaves (register h v a b c) w = register-Behaves h v a b c w
  call-Behaves (resolve h v) w = resolve-Behaves h v w
  call-Behaves (count h) w = count-Behaves h w
