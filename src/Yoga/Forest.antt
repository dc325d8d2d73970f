-- ===== src/Yoga/Forest.antt =====
-- Chains of parent handles in the node table of yoga_stubs.c, and the changes of the table that
-- preserve their ends.
use native.Mathlib.Decide.{ℕ_discrete}
use opentui_ocaml.Prelude.{
  ℕ, zero, suc, ◌^◌, ◌<◌, ◌≡◌, refl, sym, ap, ◌∙◌, ◌≢◌, ◌⊎◌, inl, inr, true, false, none, some,
  arith, Option-cases, subst,
}
use opentui_ocaml.Token.{token_index}
use opentui_ocaml.Slots.{from_token}
use opentui_ocaml.Slots.Laws.{IsValid, from_token-Names, from_token-eq-some, from_token-injective}
use opentui_ocaml.Yoga.{
  Nodes, yoga_node_capacity, yoga_node_from_handle, set_parent, ancestor_loop,
  yoga_would_create_cycle,
}

-- Following parent handles from `h` ends, at a handle that names no node.
pub data Rooted (t : Nodes) : ℕ → Type 0 where
  ends : {h : ℕ} → yoga_node_from_handle t h ≡ none → Rooted t h
  climbs :
      {h : ℕ} (i : ℕ)
      → yoga_node_from_handle t h ≡ some i
      → Rooted t (t i).payload.parent_handle
      → Rooted t h

-- Following parent handles from `h` ends at 0 and does not meet `c`.
pub data Avoids (t : Nodes) (c : ℕ) : ℕ → Type 0 where
  top : Avoids t c 0
  passes :
      {h : ℕ} (i : ℕ)
      → h ≢ c
      → yoga_node_from_handle t h ≡ some i
      → Avoids t c (t i).payload.parent_handle
      → Avoids t c h

-- Handles are 32-bit words, and every chain of parents ends.
pub record IsForest (t : Nodes) : Type 0 where
  pub valid : IsValid t
  pub words : (i : ℕ) → (t i).payload.parent_handle < 2 ^ 32
  pub rooted : (h : ℕ) → Rooted t h

-- A slot of `u` has no parent, or it is live only as in `t` and has its parent from there.
abbrev pub Covers : Nodes → Nodes → Type 0
Covers t u =
    (i : ℕ)
    → ((u i).payload.parent_handle ≡ 0)
      ⊎ (((u i).generation ≡ (t i).generation)
          × ((u i).alive ≡ true → (t i).alive ≡ true)
          × ((u i).payload.parent_handle ≡ (t i).payload.parent_handle))

pub zero_names_none : (t : Nodes) → yoga_node_from_handle t 0 ≡ none
unfolding yoga_node_from_handle from_token token_index
zero_names_none t = refl

-- A handle that names a slot of `u` that is as in `t` names it there.
Covers-names :
    (t u : Nodes) (h i : ℕ)
    → ((u i).generation ≡ (t i).generation)
    → ((u i).alive ≡ true → (t i).alive ≡ true)
    → yoga_node_from_handle u h ≡ some i
    → yoga_node_from_handle t h ≡ some i
unfolding yoga_node_from_handle
Covers-names t u h i g a live =
    let n = from_token-Names yoga_node_capacity u h i live in
    from_token-eq-some yoga_node_capacity t h i (n.0, n.1, n.2, a n.3, sym g ∙ n.4)

Covers-Rooted : (t u : Nodes) → Covers t u → {h : ℕ} → Rooted t h → Rooted u h
Covers-Rooted t u c {h} (ends e) = elim (Option-cases (yoga_node_from_handle u h)) [
  | inl stale ↦ ends stale
  | inr (i, live) ↦ elim (c i) [
    | inl root ↦ climbs i live (rw root (ends (zero_names_none u)))
    | inr same ↦ let was = Covers-names t u h i same.0 same.1 live in cc
  ]
]
Covers-Rooted t u c {h} (climbs j e r) = elim (Option-cases (yoga_node_from_handle u h)) [
  | inl stale ↦ ends stale
  | inr (i, live) ↦ elim (c i) [
    | inl root ↦ climbs i live (rw root (ends (zero_names_none u)))
    | inr same ↦
        let was = Covers-names t u h i same.0 same.1 live in
        let index : j ≡ i = ground (arith, sym e ∙ was) in
        climbs i live (
          subst (Rooted u) (ap (λ k. (t k).payload.parent_handle) index ∙ sym same.2)
            (Covers-Rooted t u c r))
  ]
]

pub ancestor_loop-climb :
    (rounds : ℕ) (t : Nodes) (c h i : ℕ)
    → h ≢ 0
    → h ≢ c
    → yoga_node_from_handle t h ≡ some i
    → ancestor_loop (suc rounds) t c h ≡ ancestor_loop rounds t c (t i).payload.parent_handle
unfolding ancestor_loop
ancestor_loop-climb rounds t c h i nz ne live = ground arith

-- The loop answers true where it meets the handle or a stale one.
pub ancestor_loop-stop :
    (rounds : ℕ) (t : Nodes) (c h : ℕ)
    → h ≢ 0
    → (h ≡ c) ⊎ (yoga_node_from_handle t h ≡ none)
    → ancestor_loop (suc rounds) t c h ≡ some true
unfolding ancestor_loop
ancestor_loop-stop rounds t c h nz stop = ground arith

pub ancestor_loop-Avoids :
    (rounds : ℕ) (t : Nodes) (c h : ℕ) → ancestor_loop rounds t c h ≡ some false → Avoids t c h
unfolding ancestor_loop
ancestor_loop-Avoids zero t c h e = cc
ancestor_loop-Avoids (suc rounds) t c h e = elim (ℕ_discrete h 0) [
  | yes z ↦ subst (Avoids t c) (sym z) top
  | no nz ↦ elim (ℕ_discrete h c) [
    | yes same ↦ let stop = ancestor_loop-stop rounds t c h nz (inl same) in cc
    | no ne ↦ elim (Option-cases (yoga_node_from_handle t h)) [
      | inl stale ↦ let stop = ancestor_loop-stop rounds t c h nz (inr stale) in cc
      | inr (i, live) ↦ passes i ne live (
          ancestor_loop-Avoids rounds t c (t i).payload.parent_handle
            (sym (ancestor_loop-climb rounds t c h i nz ne live) ∙ e))
    ]
  ]
]

set_parent-names :
    (t : Nodes) (j p h : ℕ) → yoga_node_from_handle (set_parent t j p) h ≡ yoga_node_from_handle t h
unfolding yoga_node_from_handle from_token
set_parent-names t j p h = ground arith

set_parent_ne :
    (t : Nodes) (j p i : ℕ)
    → j ≢ i
    → (set_parent t j p i).payload.parent_handle ≡ (t i).payload.parent_handle
set_parent_ne t j p i ne = ground arith

set_parent_self : (t : Nodes) (j p : ℕ) → (set_parent t j p j).payload.parent_handle ≡ p
set_parent_self t j p = ground arith

-- A chain that avoids the child is the same once the child has a parent.
Avoids-Rooted :
    (t : Nodes) (c j p : ℕ)
    → IsForest t
    → c < 2 ^ 32
    → yoga_node_from_handle t c ≡ some j
    → {h : ℕ} → h < 2 ^ 32
    → Avoids t c h
    → Rooted (set_parent t j p) h
unfolding yoga_node_from_handle
Avoids-Rooted t c j p f wc names wh top = ends (zero_names_none (set_parent t j p))
Avoids-Rooted t c j p f wc names {h} wh (passes i ne live rest) = elim (ℕ_discrete j i) [
  | yes same ↦
      let here : yoga_node_from_handle t h ≡ some j = live ∙ ap some (sym same) in
      absurd (ne (from_token-injective yoga_node_capacity t h c j wh wc here names))
  | no other ↦ climbs i (set_parent-names t j p h ∙ live) (
      subst (Rooted (set_parent t j p)) (sym (set_parent_ne t j p i other))
        (Avoids-Rooted t c j p f wc names (f.words i) rest))
]

set_parent-Rooted :
    (t : Nodes) (j p : ℕ)
    → Rooted (set_parent t j p) p
    → {h : ℕ} → Rooted t h
    → Rooted (set_parent t j p) h
set_parent-Rooted t j p top_down {h} (ends e) = ends (set_parent-names t j p h ∙ e)
set_parent-Rooted t j p top_down {h} (climbs i e r) =
    climbs i (set_parent-names t j p h ∙ e) (elim (ℕ_discrete j i) [
      | yes same ↦
          subst (Rooted (set_parent t j p))
            (sym (set_parent_self t j p)
              ∙ ap (λ k. (set_parent t j p k).payload.parent_handle) same)
            top_down
      | no other ↦
          subst (Rooted (set_parent t j p)) (sym (set_parent_ne t j p i other))
            (set_parent-Rooted t j p top_down r)
    ])

set_parent-IsValid : (t : Nodes) (j p : ℕ) → IsValid t → IsValid (set_parent t j p)
set_parent-IsValid t j p v = record {
  small = λ i. ground (arith, v.small i, v.small j);
  used = λ i. ground (arith, v.used i, v.used j);
}

-- Giving a node a parent whose chain does not pass it keeps the forest.
pub set_parent-IsForest :
    (t : Nodes) (c j p : ℕ)
    → IsForest t
    → c < 2 ^ 32
    → p < 2 ^ 32
    → yoga_node_from_handle t c ≡ some j
    → yoga_would_create_cycle t p c ≡ false
    → IsForest (set_parent t j p)
unfolding yoga_would_create_cycle
set_parent-IsForest t c j p f wc wp names free =
    let avoids : Avoids t c p = ancestor_loop-Avoids yoga_node_capacity t c p (ground arith) in
    record {
      valid = set_parent-IsValid t j p f.valid;
      words = λ i. ground (arith, f.words i);
      rooted =
          λ h. set_parent-Rooted t j p (Avoids-Rooted t c j p f wc names wp avoids) (f.rooted h);
    }

-- So does a change after which every node has its old parent or none.
pub Covers-IsForest : (t u : Nodes) → Covers t u → IsValid u → IsForest t → IsForest u
Covers-IsForest t u c v f = record {
  valid = v;
  words = λ i. elim (c i) [
    | inl root ↦ omega (arith, root)
    | inr same ↦ omega (arith, same.2, f.words i)
  ];
  rooted = λ h. Covers-Rooted t u c (f.rooted h);
}
