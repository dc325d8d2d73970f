-- ===== src/CellBuffer/Rules.antt =====
-- What the shared checks of the drawing bindings establish.
use opentui_ocaml.Prelude.{
  ℕ, ◌-◌, ◌^◌, ◌<◌, ◌≡◌, inl, inr, refl, Bool, true, ◌&&◌, Option, some, List, [], ◌∷◌, arith,
  length, if_rule, found_rule,
}
use opentui_ocaml.Prelude.Int.{ℤ}
use opentui_ocaml.Values.{to_uint32}
use opentui_ocaml.Readers.{is_positive}
use opentui_ocaml.CellBuffer.Native.{NativeBuffer}
use opentui_ocaml.CellBuffer.Request.{Request, buffer_is_valid, on_valid, requiring, reading}
use opentui_ocaml.CellBuffer.Drawing.{is_nonzero_positive}
use opentui_ocaml.CellBuffer.Allowed.{IsLive, IsCounted, IsAllowed}
use opentui_ocaml.CellBuffer.Ranges.{is_positive-lt}

pub two_positive :
    (m n : ℤ)
    → (is_positive m && is_positive n) ≡ true
    → (to_uint32 m < 2 ^ 31) × (to_uint32 n < 2 ^ 31)
two_positive m n h = ground (arith, is_positive-lt m, is_positive-lt n)

pub four_positive :
    (k l m n : ℤ)
    → (is_positive k && is_positive l && is_positive m && is_positive n) ≡ true
    → (to_uint32 k < 2 ^ 31)
      × (to_uint32 l < 2 ^ 31)
      × (to_uint32 m < 2 ^ 31)
      × (to_uint32 n < 2 ^ 31)
four_positive k l m n h =
    ground (arith, is_positive-lt k, is_positive-lt l, is_positive-lt m, is_positive-lt n)

pub is_nonzero_positive-bounds :
    (n : ℤ) → is_nonzero_positive n ≡ true → (0 < to_uint32 n) × (to_uint32 n < 2 ^ 31)
is_nonzero_positive-bounds n h = ground (arith, is_positive-lt n)

pub two_sizes :
    (m n : ℤ)
    → (is_nonzero_positive m && is_nonzero_positive n) ≡ true
    → ((0 < to_uint32 m) × (to_uint32 m < 2 ^ 31)) × ((0 < to_uint32 n) × (to_uint32 n < 2 ^ 31))
two_sizes m n h = ground (arith, is_positive-lt m, is_positive-lt n)

pub one_less : (offsets : List ℤ) → length offsets < 2 ^ 32 → IsCounted offsets (length offsets - 1)
one_less [] small = (small, inr (refl, refl))
one_less (n ∷ ns) small = (small, inl (omega arith))

module _ (native : NativeBuffer) (w : native.World) where
  pub buffer_is_valid-IsLive : (h : ℕ) → buffer_is_valid native h w ≡ true → IsLive native w h
  unfolding buffer_is_valid
  buffer_is_valid-IsLive h e = ground arith

  pub both-IsLive :
      (h k : ℕ)
      → (buffer_is_valid native h w && buffer_is_valid native k w) ≡ true
      → IsLive native w h × IsLive native w k
  both-IsLive h k e = ground (arith, buffer_is_valid-IsLive h, buffer_is_valid-IsLive k)

  pub valid_rule :
      (h : ℕ) (r : Request native.Single)
      → (IsLive native w h → IsAllowed native w r)
      → IsAllowed native w (on_valid native h w r)
  valid_rule h r good =
      if_rule (IsAllowed native w) (buffer_is_valid native h w)
        (λ e. good (buffer_is_valid-IsLive h e)) (λ stale e. cc)

  pub requiring_rule :
      (test : Bool) (r : Request native.Single)
      → (test ≡ true → IsAllowed native w r)
      → IsAllowed native w (requiring test r)
  requiring_rule test r good = if_rule (IsAllowed native w) test good (λ bad e. cc)

  pub reading_rule :
      {A : Type 0} (o : Option A) (f : A → Request native.Single)
      → ((a : A) → o ≡ some a → IsAllowed native w (f a))
      → IsAllowed native w (reading o f)
  reading_rule o f good = found_rule (IsAllowed native w) o (λ bad e. cc) good
