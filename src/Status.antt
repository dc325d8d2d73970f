-- ===== src/Status.antt =====
-- packages/opentui-raw/raw_status.h: the status that every binding returns, and the two ways in
-- which a binding that allocates on the OCaml heap can end.
use opentui_ocaml.Prelude.{◌⊎◌, inl, inr, ℕ, ◌≡◌, refl, ◌≢◌}

pub data Status : Type 0 where
  ok invalid_argument stale_handle native_failure output_too_small queue_overflow : Status
  no_space max_bytes busy : Status

-- A binding returns, or an OCaml allocation in it raises Out_of_memory.
pub data Outcome {ℓ} (A : Type ℓ) : Type ℓ where
  returns : A → Outcome A
  raises : Outcome A

-- The integer that crosses into OCaml.
abbrev pub code : Status → ℕ
code ok = 0
code invalid_argument = 1
code stale_handle = 2
code native_failure = 3
code output_too_small = 4
code queue_overflow = 5
code no_space = 6
code max_bytes = 7
code busy = 8

-- `if (status == OPENTUI_RAW_STATUS_OK) ... else ...`
abbrev pub on_ok {ℓ} : {A : Type ℓ} → Status → A → (Status → A) → A
on_ok ok a f = a
on_ok invalid_argument a f = f invalid_argument
on_ok stale_handle a f = f stale_handle
on_ok native_failure a f = f native_failure
on_ok output_too_small a f = f output_too_small
on_ok queue_overflow a f = f queue_overflow
on_ok no_space a f = f no_space
on_ok max_bytes a f = f max_bytes
on_ok busy a f = f busy

-- A property of both branches holds of the choice.
pub on_ok_rule {ℓ κ} :
    {A : Type ℓ} (P : A → Type κ) (status : Status) (a : A) (f : Status → A)
    → (status ≡ ok → P a)
    → ((failed : Status) → status ≡ failed → failed ≢ ok → P (f failed))
    → P (on_ok status a f)
on_ok_rule P ok a f h k = h refl
on_ok_rule P invalid_argument a f h k = k invalid_argument refl (λ e. cc)
on_ok_rule P stale_handle a f h k = k stale_handle refl (λ e. cc)
on_ok_rule P native_failure a f h k = k native_failure refl (λ e. cc)
on_ok_rule P output_too_small a f h k = k output_too_small refl (λ e. cc)
on_ok_rule P queue_overflow a f h k = k queue_overflow refl (λ e. cc)
on_ok_rule P no_space a f h k = k no_space refl (λ e. cc)
on_ok_rule P max_bytes a f h k = k max_bytes refl (λ e. cc)
on_ok_rule P busy a f h k = k busy refl (λ e. cc)

pub ok_cases : (status : Status) → (status ≡ ok) ⊎ (status ≢ ok)
ok_cases ok = inl refl
ok_cases invalid_argument = inr (λ e. cc)
ok_cases stale_handle = inr (λ e. cc)
ok_cases native_failure = inr (λ e. cc)
ok_cases output_too_small = inr (λ e. cc)
ok_cases queue_overflow = inr (λ e. cc)
ok_cases no_space = inr (λ e. cc)
ok_cases max_bytes = inr (λ e. cc)
ok_cases busy = inr (λ e. cc)
