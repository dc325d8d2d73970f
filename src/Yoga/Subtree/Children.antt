-- ===== src/Yoga/Subtree/Children.antt =====
-- What the loop over candidates pushes.
use native.Mathlib.Decide.{ℕ_discrete}
use mathlib.Core.Bool.{false≢true}
use opentui_ocaml.Prelude.{
  ℕ, zero, suc, ◌+◌, ◌^◌, ◌≤◌, ◌<◌, ◌≡◌, refl, sym, ap, ◌∙◌, ◌≢◌, ◌⊎◌, inl, inr, true, false, List,
  [], ◌∷◌, arith, Bool-cases,
}
use opentui_ocaml.Token.{token_index}
use opentui_ocaml.Token.Laws.{token_index-make_token}
use opentui_ocaml.Slots.Laws.{IsValid}
use opentui_ocaml.Yoga.{Nodes}
use opentui_ocaml.Yoga.Subtree.{is_child, handle_of, push_children}

abbrev pub In : ℕ → List ℕ → Type 0
In x [] = ⊥
In x (y ∷ ys) = (x ≡ y) ⊎ In x ys

abbrev pub Distinct : List ℕ → Type 0
Distinct [] = Unit {0}
Distinct (x ∷ xs) = (In x xs → ⊥) × Distinct xs

-- A child of `h` among the candidates from `index` on.
pub record Child (t : Nodes) (h index rounds e : ℕ) : Type 0 where
  pub slot : ℕ
  pub from : index ≤ slot
  pub below : slot < index + rounds
  pub child : is_child t h slot ≡ true
  pub handle : e ≡ handle_of t slot

later :
    {t : Nodes} {h index rounds e : ℕ}
    → Child t h (index + 1) rounds e
    → Child t h index (suc rounds) e
later c = record {
  slot = c.slot;
  from = omega (arith, c.from);
  below = omega (arith, c.below);
  child = c.child;
  handle = c.handle;
}

pub push_children-In :
    (rounds index : ℕ) (t : Nodes) (h : ℕ) (pending : List ℕ) (e : ℕ)
    → In e (push_children rounds index t h pending)
    → In e pending ⊎ Child t h index rounds e
unfolding push_children
push_children-In zero index t h pending e i = inl i
push_children-In (suc rounds) index t h pending e i = elim (Bool-cases (is_child t h index)) [
  | inl yes_child ↦
      elim (push_children-In rounds (index + 1) t h (handle_of t index ∷ pending) e
        (rw yes_child at i)) [
          | inl (inl here) ↦ inr (record {
            slot = index;
            from = omega arith;
            below = omega arith;
            child = yes_child;
            handle = here;
          })
          | inl (inr rest) ↦ inl rest
          | inr c ↦ inr (later c)
        ]
  | inr no_child ↦ elim (push_children-In rounds (index + 1) t h pending e (rw no_child at i)) [
    | inl rest ↦ inl rest
    | inr c ↦ inr (later c)
  ]
]

pub In-push_children :
    (rounds index : ℕ) (t : Nodes) (h : ℕ) (pending : List ℕ) (e : ℕ)
    → In e pending ⊎ Child t h index rounds e
    → In e (push_children rounds index t h pending)
unfolding push_children
In-push_children zero index t h pending e (inl i) = i
In-push_children zero index t h pending e (inr c) = absurd (omega (arith, c.from, c.below))
In-push_children (suc rounds) index t h pending e (inl i) = elim (Bool-cases (is_child t h index)) [
  | inl yes_child ↦
      rw yes_child
        (In-push_children rounds (index + 1) t h (handle_of t index ∷ pending) e (inl (inr i)))
  | inr no_child ↦ rw no_child (In-push_children rounds (index + 1) t h pending e (inl i))
]
In-push_children (suc rounds) index t h pending e (inr c) = elim (Bool-cases (is_child t h index)) [
  | inl yes_child ↦
      rw yes_child
        (In-push_children rounds (index + 1) t h (handle_of t index ∷ pending) e (pushed c))
  | inr no_child ↦
      rw no_child (In-push_children rounds (index + 1) t h pending e (inr (beyond c no_child)))
]
  where
    beyond :
        Child t h index (suc rounds) e → is_child t h index ≡ false → Child t h (index + 1) rounds e
    beyond c no_child = record {
      slot = c.slot;
      from =
          (let apart : index ≢ c.slot =
              λ same. false≢true (sym no_child ∙ ap (is_child t h) same ∙ c.child) in
            omega (arith, c.from));
      below = omega (arith, c.below);
      child = c.child;
      handle = c.handle;
    }

    pushed :
        Child t h index (suc rounds) e
        → In e (handle_of t index ∷ pending) ⊎ Child t h (index + 1) rounds e
    pushed c = elim (ℕ_discrete index c.slot) [
      | yes same ↦ inl (inl (c.handle ∙ ap (handle_of t) (sym same)))
      | no other ↦ inr (record {
        slot = c.slot;
        from = omega (arith, c.from);
        below = omega (arith, c.below);
        child = c.child;
        handle = c.handle;
      })
    ]

pub push_children-Distinct :
    (rounds index : ℕ) (t : Nodes) (h : ℕ) (pending : List ℕ)
    → IsValid t
    → index + rounds ≤ 2 ^ 16
    → Distinct pending
    → ((e : ℕ) → Child t h index rounds e → In e pending → ⊥)
    → Distinct (push_children rounds index t h pending)
unfolding push_children
push_children-Distinct zero index t h pending v small d new = d
push_children-Distinct (suc rounds) index t h pending v small d new =
    elim (Bool-cases (is_child t h index)) [
      | inl yes_child ↦ rw yes_child (
          push_children-Distinct rounds (index + 1) t h (handle_of t index ∷ pending) v
            (omega arith)
            (
              new (handle_of t index) (record {
                slot = index;
                from = omega arith;
                below = omega arith;
                child = yes_child;
                handle = refl;
              }),
              d,
            )
            (λ e c i. elim i [
              | inl same ↦ no_twin c (sym same ∙ c.handle)
              | inr rest ↦ new e (later c) rest
            ]))
      | inr no_child ↦ rw no_child (
          push_children-Distinct rounds (index + 1) t h pending v (omega arith) d
            (λ e c. new e (later c)))
    ]
  where
    no_twin :
        {e : ℕ} (c : Child t h (index + 1) rounds e) → handle_of t index ≡ handle_of t c.slot → ⊥
    no_twin c same =
        let here =
          token_index-make_token index (t index).generation (omega arith) (v.small index) in
        let there =
          token_index-make_token c.slot (t c.slot).generation (omega (arith, c.below))
            (v.small c.slot) in
        omega (arith, c.from, sym here ∙ ap token_index same ∙ there)
