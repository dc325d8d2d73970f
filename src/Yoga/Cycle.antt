-- ===== src/Yoga/Cycle.antt =====
-- The loop of `yoga_would_create_cycle` of yoga_stubs.c.
use native.Mathlib.Decide.{ℕ_discrete}
use opentui_ocaml.Prelude.{
  ℕ, zero, suc, ◌<◌, ◌≡◌, refl, sym, ap, ◌∙◌, ◌≢◌, ◌↔◌, inl, inr, Bool, true, false, none, some,
  arith, Option-cases, Bool-cases, subst,
}
use opentui_ocaml.Slots.Laws.{from_token-Names}
use opentui_ocaml.Yoga.{
  Nodes, yoga_node_capacity, yoga_node_from_handle, ancestor_loop, yoga_would_create_cycle,
}
use opentui_ocaml.Yoga.Count.{count, mark, count-mark, count_none}
use opentui_ocaml.Yoga.Forest.{
  Rooted, ends, climbs, Avoids, top, passes, IsForest, ancestor_loop-climb, ancestor_loop-stop,
  ancestor_loop-Avoids, zero_names_none,
}

module _ (t : Nodes) where
  -- The slots that a chain of parent handles visits.
  data OnChain : ℕ → ℕ → Type 0 where
    here : {h : ℕ} (i : ℕ) → yoga_node_from_handle t h ≡ some i → OnChain h i
    above :
        {h : ℕ} (j i : ℕ)
        → yoga_node_from_handle t h ≡ some j
        → OnChain (t j).payload.parent_handle i
        → OnChain h i

  depth : {h : ℕ} → Rooted t h → ℕ
  depth (ends e) = 0
  depth (climbs i e r) = suc (depth r)

  depth_unique : {h h' : ℕ} (r : Rooted t h) (r' : Rooted t h') → h ≡ h' → depth r ≡ depth r'
  unfolding depth
  depth_unique (ends e) (ends e') p = refl
  depth_unique {h} {h'} (ends e) (climbs i e' r') p =
      let again = ap (yoga_node_from_handle t) p in cc
  depth_unique {h} {h'} (climbs i e r) (ends e') p =
      let again = ap (yoga_node_from_handle t) p in cc
  depth_unique {h} {h'} (climbs i e r) (climbs i' e' r') p =
      let same : i ≡ i' = ground (arith, sym e ∙ ap (yoga_node_from_handle t) p ∙ e') in
      ap suc (depth_unique r r' (ap (λ k. (t k).payload.parent_handle) same))

  depth-OnChain :
      {h i : ℕ}
      → OnChain h i
      → (r : Rooted t h) (r' : Rooted t (t i).payload.parent_handle) → depth r' < depth r
  unfolding depth
  depth-OnChain (here i e) (ends e') r' = cc
  depth-OnChain (here i e) (climbs j e' r) r' =
      let same : i ≡ j = ground (arith, sym e ∙ e') in
      omega (arith, depth_unique r' r (ap (λ k. (t k).payload.parent_handle) same))
  depth-OnChain (above j i e on) (ends e') r' = cc
  depth-OnChain (above j i e on) (climbs k e' r) r' =
      let same : k ≡ j = ground (arith, sym e' ∙ e) in
      let chain = ap (λ n. (t n).payload.parent_handle) same in
      let r2 = subst (Rooted t) chain r in
      omega (arith, depth-OnChain on r2 r', depth_unique r r2 chain)

  -- No node is among its own ancestors.
  OnChain-ne : (f : IsForest t) (i j : ℕ) → OnChain (t i).payload.parent_handle j → i ≢ j
  OnChain-ne f i j on e =
      let r = f.rooted (t i).payload.parent_handle in
      let less = depth-OnChain (subst (OnChain (t i).payload.parent_handle) (sym e) on) r r in
      omega arith

  ancestor_loop_root : (rounds c h : ℕ) → h ≡ 0 → ancestor_loop (suc rounds) t c h ≡ some false
  unfolding ancestor_loop
  ancestor_loop_root rounds c h z = ground arith

  zero_names_none_at : (h i : ℕ) → h ≡ 0 → yoga_node_from_handle t h ≢ some i
  zero_names_none_at h i z e =
      let stale = zero_names_none t in
      let live : yoga_node_from_handle t 0 ≡ some i = ap (yoga_node_from_handle t) (sym z) ∙ e in cc

  ancestor_loop_ends :
      (f : IsForest t) (rounds c h : ℕ) (marked : ℕ → Bool)
      → ((i : ℕ) → OnChain h i → marked i ≡ false)
      → count yoga_node_capacity marked < rounds
      → ancestor_loop rounds t c h ≢ none
  unfolding yoga_node_from_handle
  ancestor_loop_ends f zero c h marked unmarked few e = omega arith
  ancestor_loop_ends f (suc rounds) c h marked unmarked few e = elim (ℕ_discrete h 0) [
    | yes z ↦ let stop = ancestor_loop_root rounds c h z in cc
    | no nz ↦ elim (ℕ_discrete h c) [
      | yes same ↦ let stop = ancestor_loop-stop rounds t c h nz (inl same) in cc
      | no ne ↦ elim (Option-cases (yoga_node_from_handle t h)) [
        | inl stale ↦ let stop = ancestor_loop-stop rounds t c h nz (inr stale) in cc
        | inr (i, live) ↦
            let n = from_token-Names yoga_node_capacity t h i live in
            let fewer = count-mark yoga_node_capacity marked i n.2 (unmarked i (here i live)) in
            ancestor_loop_ends f rounds c (t i).payload.parent_handle (mark marked i)
              (λ k on. ground (arith, OnChain-ne f i k on, unmarked k (above i k live on)))
              (omega (arith, fewer)) (sym (ancestor_loop-climb rounds t c h i nz ne live) ∙ e)
      ]
    ]
  ]

  OnChain-positive : {h i : ℕ} → OnChain h i → 0 < i
  unfolding yoga_node_from_handle
  OnChain-positive {h} (here i e) = (from_token-Names yoga_node_capacity t h i e).1
  OnChain-positive (above j i e on) = OnChain-positive on

  Avoids-ancestor_loop : (rounds c h : ℕ) → Avoids t c h → ancestor_loop rounds t c h ≢ some true
  unfolding ancestor_loop
  Avoids-ancestor_loop zero c h a e = cc
  Avoids-ancestor_loop (suc rounds) c h top e = cc
  Avoids-ancestor_loop (suc rounds) c h (passes i ne live rest) e =
      let nz : h ≢ 0 = λ z. zero_names_none_at h i z live in
      Avoids-ancestor_loop rounds c (t i).payload.parent_handle rest
        (sym (ancestor_loop-climb rounds t c h i nz ne live) ∙ e)

  -- In a forest the loop ends within as many rounds as the table has slots.
  pub ancestor_loop_decides :
      (c h : ℕ)
      → IsForest t
      → (answer : Bool) × (ancestor_loop yoga_node_capacity t c h ≡ some answer)
  ancestor_loop_decides c h f = elim (Option-cases (ancestor_loop yoga_node_capacity t c h)) [
    | inl out ↦ absurd (
        ancestor_loop_ends f yoga_node_capacity c h (mark (λ j. false) 0)
          (λ i on. ground (arith, OnChain-positive on))
          (omega (
            arith,
            count-mark yoga_node_capacity (λ j. false) 0 (omega arith) refl,
            count_none yoga_node_capacity,
          ))
          out)
    | inr (answer, e) ↦ (answer, e)
  ]

  -- In a forest the cycle check of an insertion ends within as many rounds as the table has slots,
  -- and it answers false exactly where the chain of parents from the new parent leads to a root
  -- without a stale handle and without the child.
  pub yoga_would_create_cycle_iff :
      (parent_handle child_handle : ℕ)
      → IsForest t
      → ((answer : Bool) × (ancestor_loop yoga_node_capacity t child_handle parent_handle
            ≡ some answer)
          × (yoga_would_create_cycle t parent_handle child_handle ≡ answer))
        × ((yoga_would_create_cycle t parent_handle child_handle ≡ false)
            ↔ Avoids t child_handle parent_handle)
  unfolding yoga_would_create_cycle
  yoga_would_create_cycle_iff p c f =
      let d = ancestor_loop_decides c p f in
      (
        (d.0, d.1, rw d.1 refl),
        (
          λ no.
              ancestor_loop-Avoids yoga_node_capacity t c p
                (d.1 ∙ ap some (sym (rw d.1 refl) ∙ no)),
          λ a. elim (Bool-cases d.0) [
            | inl yes_cycle ↦
                absurd (Avoids-ancestor_loop yoga_node_capacity c p a (d.1 ∙ ap some yes_cycle))
            | inr no_cycle ↦ rw (d.1, no_cycle) refl
          ],
        ),
      )
