-- ===== src/Yoga/Subtree/Round.antt =====
-- One round of `yoga_release_subtree_slots`.
use native.Mathlib.Decide.{ℕ_discrete}
use mathlib.Core.Bool.{false≢true}
use opentui_ocaml.Prelude.{
  ℕ, suc, ◌-◌, ◌^◌, ◌<◌, ◌≡◌, refl, sym, ap, ◌∙◌, ◌≢◌, ◌⊎◌, inl, inr, true, false, none, some, List,
  ◌∷◌, arith, Option-cases, subst,
}
use opentui_ocaml.Token.{make_token}
use opentui_ocaml.Slots.Laws.{from_token-Names, from_token-injective}
use opentui_ocaml.Yoga.{Nodes, yoga_node_capacity, yoga_node_from_handle}
use opentui_ocaml.Yoga.Steps.{yoga_release_node-IsForest}
use opentui_ocaml.Yoga.Count.{count, mark, count-mark, count-agree}
use opentui_ocaml.Yoga.Subtree.{handle_of, push_children}
use opentui_ocaml.Yoga.Subtree.Children.{
  In, Child, push_children-In, In-push_children, push_children-Distinct,
}
use opentui_ocaml.Yoga.Subtree.Walk.{
  Waits, Linked, Walk, dead, u, released_self, released_ne, names_still, none_still, none_now,
  handle_of-names,
}

module _ (t : Nodes) (h : ℕ) (rest : List ℕ) (walk : Walk t (h ∷ rest)) where
  abbrev pub w : Waits t h
  w = walk.waits h (inl refl)

  abbrev pub after : Nodes
  after = u t h w

  abbrev CandidateChild : ℕ → Type 0
  CandidateChild e = Child t h 1 (yoga_node_capacity - 1) e

  record ChildFacts (e k : ℕ) : Type 0 where
    named : yoga_node_from_handle t e ≡ some k
    word : e < 2 ^ 32
    parent : (t k).payload.parent_handle ≡ h

  child_facts : {e : ℕ} (c : CandidateChild e) → ChildFacts e c.slot
  child_facts {e} c =
      let live : (t c.slot).alive ≡ true = ground (arith, c.child) in
      let n =
        handle_of-names t c.slot walk.forest.valid (omega (arith, c.from)) (omega (arith, c.below))
          live in
      record {
        named = ap (yoga_node_from_handle t) c.handle ∙ n.0;
        word = omega (arith, c.handle, n.1);
        parent = ground (arith, c.child);
      }

  -- A node whose parent handle names none is no child of `h`, which names one.
  no_orphan_child :
      (k : ℕ)
      → (t k).payload.parent_handle ≡ h
      → yoga_node_from_handle t (t k).payload.parent_handle ≢ none
  no_orphan_child k e stale =
      let live = w.names in
      let gone : yoga_node_from_handle t h ≡ none = ap (yoga_node_from_handle t) (sym e) ∙ stale in
      cc

  child_ne : {e k : ℕ} → ChildFacts e k → w.slot ≢ k
  child_ne {e} {k} f same =
      no_orphan_child k f.parent
        (ap (λ j. yoga_node_from_handle t (t j).payload.parent_handle) (sym same) ∙ w.orphan)

  child_waits : {e : ℕ} → CandidateChild e → Waits after e
  child_waits {e} c =
      let f = child_facts c in
      let ne = child_ne f in
      record {
        word = f.word;
        slot = c.slot;
        names = names_still t h w e c.slot ne f.named;
        orphan =
            ap (yoga_node_from_handle after)
              (ap (λ x. x.payload.parent_handle) (released_ne t h w c.slot ne) ∙ f.parent)
            ∙ none_now t h w;
      }

  rest_ne : (e : ℕ) → In e rest → (we : Waits t e) → w.slot ≢ we.slot
  unfolding yoga_node_from_handle
  rest_ne e i we same =
      let here : yoga_node_from_handle t e ≡ some w.slot = we.names ∙ ap some (sym same) in
      let equal : e ≡ h =
        from_token-injective yoga_node_capacity t e h w.slot we.word w.word here w.names in
      walk.distinct.0 (subst (λ x. In x rest) equal i)

  rest_waits : (e : ℕ) → In e rest → Waits after e
  rest_waits e i =
      let we = walk.waits e (inr i) in
      let ne = rest_ne e i we in
      record {
        word = we.word;
        slot = we.slot;
        names = names_still t h w e we.slot ne we.names;
        orphan =
            ap (yoga_node_from_handle after)
              (ap (λ x. x.payload.parent_handle) (released_ne t h w we.slot ne))
            ∙ none_still t h w (t we.slot).payload.parent_handle we.orphan;
      }

  child_new : (e : ℕ) → CandidateChild e → In e rest → ⊥
  child_new e c i =
      let we = walk.waits e (inr i) in
      let f = child_facts c in
      let same : we.slot ≡ c.slot = ground (arith, sym we.names ∙ f.named) in
      no_orphan_child c.slot f.parent
        (ap (λ j. yoga_node_from_handle t (t j).payload.parent_handle) (sym same) ∙ we.orphan)

  abbrev pub pushed : List ℕ
  pushed = push_children (yoga_node_capacity - 1) 1 t h rest

  pub child_pushed :
      (i : ℕ)
      → 0 < i
      → i < yoga_node_capacity
      → (t i).alive ≡ true
      → (t i).payload.parent_handle ≡ h
      → In (handle_of t i) pushed
  child_pushed i p q live e = In-push_children (yoga_node_capacity - 1) 1 t h rest (handle_of t i) (
      inr (record {
        slot = i;
        from = p;
        below = omega arith;
        child = ground (arith, live, e);
        handle = refl;
      }))

  pub same_handle :
      (i j : ℕ)
      → w.slot ≡ j
      → yoga_node_from_handle t (t i).payload.parent_handle ≡ some j
      → (t i).payload.parent_handle ≡ h
  unfolding yoga_node_from_handle
  same_handle i j here names =
      from_token-injective yoga_node_capacity t (t i).payload.parent_handle h j
        (walk.forest.words i) w.word names (w.names ∙ ap some here)

  pub Linked-after : Linked t (h ∷ rest) → Linked after pushed
  Linked-after linked i p q live =
      let ne : w.slot ≢ i =
        λ same. false≢true (sym (released_self t h w) ∙ ap (λ k. (after k).alive) same ∙ live) in
      let same = released_ne t h w i ne in
      let was : (t i).alive ≡ true = ap (λ x. x.alive) (sym same) ∙ live in
      let parent = ap (λ x. x.payload.parent_handle) same in
      let handle : handle_of t i ≡ handle_of after i =
        ap (λ x. make_token i x.generation) (sym same) in
      subst
        (λ e.
          ((after i).payload.parent_handle ≡ 0)
          ⊎ (yoga_node_from_handle after (after i).payload.parent_handle ≢ none)
          ⊎ In e pushed)
        handle
        (subst (λ q. (q ≡ 0) ⊎ (yoga_node_from_handle after q ≢ none) ⊎ In (handle_of t i) pushed)
          (sym parent) (still i p q ne was (linked i p q was)))
    where
      still :
          (i : ℕ)
          → 0 < i
          → i < yoga_node_capacity
          → w.slot ≢ i
          → (t i).alive ≡ true
          → ((t i).payload.parent_handle ≡ 0)
            ⊎ (yoga_node_from_handle t (t i).payload.parent_handle ≢ none)
            ⊎ In (handle_of t i) (h ∷ rest)
          → ((t i).payload.parent_handle ≡ 0)
            ⊎ (yoga_node_from_handle after (t i).payload.parent_handle ≢ none)
            ⊎ In (handle_of t i) pushed
      still i p q ne live (inl root) = inl root
      still i p q ne live (inr (inl has_parent)) =
          elim (Option-cases (yoga_node_from_handle t (t i).payload.parent_handle)) [
            | inl stale ↦ absurd (has_parent stale)
            | inr (j, names) ↦ elim (ℕ_discrete w.slot j) [
              | yes here ↦ inr (inr (child_pushed i p q live (same_handle i j here names)))
              | no other ↦
                  let kept = names_still t h w (t i).payload.parent_handle j other names in
                  inr (inl (λ gone. cc))
            ]
          ]
      still i p q ne live (inr (inr (inl here))) =
          let n = (handle_of-names t i walk.forest.valid p q live).0 in
          let mine : yoga_node_from_handle t h ≡ some i =
            ap (yoga_node_from_handle t) (sym here) ∙ n in
          absurd (ne (ground (arith, sym w.names ∙ mine)))
      still i p q ne live (inr (inr (inr later))) =
          inr
            (inr (In-push_children (yoga_node_capacity - 1) 1 t h rest (handle_of t i) (inl later)))

  pub Walk-after : Walk after pushed
  unfolding u
  Walk-after = record {
    forest = yoga_release_node-IsForest t h walk.forest;
    waits = λ e i. elim (push_children-In (yoga_node_capacity - 1) 1 t h rest e i) [
      | inl old ↦ rest_waits e old
      | inr new ↦ child_waits new
    ];
    distinct =
        push_children-Distinct (yoga_node_capacity - 1) 1 t h rest walk.forest.valid (omega arith)
          walk.distinct.1 child_new;
  }

  pub fewer_live : suc (count yoga_node_capacity (dead after)) ≡ count yoga_node_capacity (dead t)
  unfolding yoga_node_from_handle
  fewer_live =
      let n = from_token-Names yoga_node_capacity t h w.slot w.names in
      let live : dead t w.slot ≡ false = ground (arith, n.1, n.3) in
      ap suc (
        count-agree yoga_node_capacity (dead after) (mark (dead t) w.slot) (λ i p.
          elim (ℕ_discrete w.slot i) [
            | yes same ↦ ground (arith, ap (λ k. (after k).alive) (sym same) ∙ released_self t h w)
            | no other ↦ ground (arith, ap (λ x. x.alive) (released_ne t h w i other))
          ]))
      ∙ count-mark yoga_node_capacity (dead t) w.slot n.2 live
