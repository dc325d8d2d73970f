-- ===== src/Yoga/Agree/Tests.antt =====
-- A layout library that keeps a tree, and a history of bindings over it.
use native.Mathlib.Decide.{ℕ_discrete}
use opentui_ocaml.Prelude.{
  ℕ, zero, suc, ◌+◌, ◌<◌, ◌≡◌, refl, sym, ◌∙◌, Bool, true, false, not, ◌&&◌, List, [], ◌∷◌, arith,
  ◌==◌, ltb, if◌then◌else◌, ap, subst, inl, inr, Bool-cases,
}
use opentui_ocaml.Prelude.Int.{pos}
use opentui_ocaml.Yoga.Native.{NativeYoga, Double, nan}
use opentui_ocaml.Yoga.Count.{count, mark, count-mark, count-agree}
use opentui_ocaml.Yoga.Calls.{Call, creates, frees_recursively, inserts, moves, run, initial}
use opentui_ocaml.Yoga.Agree.{
  Tree, Under, itself, owned, AllStay, IsQuiet, IsLibrary, Agrees, calculates, marks_dirty,
  sets_has_new_layout, sets_value, sets_float, sets_border, sets_measure_func, unsets_measure_func,
  attaches,
}
use opentui_ocaml.Yoga.Agree.History.{run-initial-Agrees}

-- Addresses below `next` have been given out; `live` says which are not freed.
record Heap : Type 0 where
  next : ℕ
  live : ℕ → Bool
  owner : ℕ → ℕ

abbrev with_owner : Heap → ℕ → ℕ → Heap
with_owner w b a = record w { owner = λ c. if c == b then a else w.owner c }

abbrev exists : Heap → ℕ → Bool
exists w b = not (b == 0) && ltb b w.next && w.live b

-- Whether following owners from `b` meets `a`, in as many steps as there are rounds.
abbrev meets : ℕ → Heap → ℕ → ℕ → Bool
meets zero w a b = b == a
meets (suc rounds) w a b = if b == a then true else exists w b && meets rounds w a (w.owner b)

abbrev is_other : Heap → ℕ → ℕ → Bool
is_other w a b = not (w.live b && w.owner b == a)

abbrev keeping : NativeYoga
keeping = record {
  World = Heap;
  Single = Double;
  to_single = λ x. x;
  node_create = λ w. (
    w.next,
    record {
      next = w.next + 1;
      live = λ b. if b == w.next then true else w.live b;
      owner = λ b. if b == w.next then 0 else w.owner b;
    },
  );
  node_free = λ a w. record w { live = λ b. w.live b && not (b == a) };
  node_free_recursive = λ a w. record w { live = λ b. w.live b && not (meets w.next w a b) };
  node_child_count = λ a w. count w.next (is_other w a);
  node_insert_child = λ a b index w. with_owner w b a;
  node_remove_child = λ a b w. with_owner w b 0;
  node_calculate_layout = λ a x y direction w. w;
  node_is_dirty = λ a w. false;
  node_mark_dirty = λ a w. w;
  node_has_new_layout = λ a w. true;
  node_set_has_new_layout = λ a new w. w;
  node_style_set_value = λ a kind edge unit x w. w;
  node_style_set_enum = λ a kind code w. w;
  node_style_set_float = λ a kind x w. w;
  node_style_set_border = λ a edge x w. w;
  node_computed_layout =
      λ a w. record { left = nan; top = nan; right = nan; bottom = nan; width = nan; height = nan };
  node_set_measure_func = λ a enabled w. w;
  node_unset_measure_func = λ a w. w;
  node_has_measure_func = λ a w. false;
  renderable_attach = λ renderable a w. (true, w);
}

abbrev heap_tree : Tree keeping
heap_tree = record {
  Exists = λ a w. (0 < a) × (a < w.next) × (w.live a ≡ true);
  owner_of = λ a w. w.owner a;
}

meets-Under : (rounds : ℕ) (w : Heap) (a b : ℕ) → meets rounds w a b ≡ true → Under heap_tree w a b
meets-Under zero w a b h =
    let same : a ≡ b = ground (arith, h) in subst (Under heap_tree w a) same itself
meets-Under (suc rounds) w a b h = elim (ℕ_discrete a b) [
  | yes same ↦ subst (Under heap_tree w a) same itself
  | no other ↦
      let both : (exists w b && meets rounds w a (w.owner b)) ≡ true = ground (arith, h, other) in
      owned (ground (arith, both)) (meets-Under rounds w a (w.owner b) (ground (arith, both)))
]

quiet_same : (a : ℕ) (w w' : Heap) → IsQuiet keeping a w w' → AllStay heap_tree w w'
quiet_same a w _ (calculates x y direction) b there = (there, refl)
quiet_same a w _ marks_dirty b there = (there, refl)
quiet_same a w _ (sets_has_new_layout new) b there = (there, refl)
quiet_same a w _ (sets_value kind edge unit x) b there = (there, refl)
quiet_same a w _ (IsQuiet.sets_enum kind code) b there = (there, refl)
quiet_same a w _ (sets_float kind x) b there = (there, refl)
quiet_same a w _ (sets_border edge x) b there = (there, refl)
quiet_same a w _ (sets_measure_func enabled) b there = (there, refl)
quiet_same a w _ unsets_measure_func b there = (there, refl)
quiet_same a w _ (attaches renderable) b there = (there, refl)

count-owner :
    (w : Heap) (a b : ℕ)
    → b < w.next
    → w.live b ≡ true
    → w.owner b ≡ a
    → suc (count w.next (mark (is_other w a) b)) ≡ count w.next (is_other w a)
count-owner w a b p live own = count-mark w.next (is_other w a) b p (ground (arith, live, own))

not_met : (w : Heap) (a b : ℕ) → (Under heap_tree w a b → ⊥) → meets w.next w a b ≡ false
not_met w a b apart = elim (Bool-cases (meets w.next w a b)) [
  | inl met ↦ absurd (apart (meets-Under w.next w a b met))
  | inr fine ↦ fine
]

count-removed :
    (w : Heap) (a b : ℕ)
    → 0 < a
    → b < w.next
    → w.live b ≡ true
    → w.owner b ≡ a
    → count w.next (is_other w a) ≡ suc (count w.next (is_other (with_owner w b 0) a))
count-removed w a b there p live own =
    sym (count-owner w a b p live own)
    ∙ ap suc (
        count-agree w.next (mark (is_other w a) b) (is_other (with_owner w b 0) a)
          (λ i q. ground (arith, there, live, own)))

heap-IsLibrary : IsLibrary heap_tree
heap-IsLibrary = record {
  null = λ w there. omega (arith, there.0);
  creates = λ w b there.
      ((there.0, omega (arith, there.1), ground (arith, there)), ground (arith, there));
  created = λ w there. (
    (λ old. omega (arith, old.1)),
    (ground (arith, there), omega arith, ground arith),
    ground arith,
  );
  counts = λ a b w there child own none_counted.
      omega (arith, none_counted, count-owner w a b child.1 child.2 own);
  frees =
      λ a w there root childless b ne other. ((other.0, other.1, ground (arith, other, ne)), refl);
  frees_recursively = λ a w there root b apart other.
      ((other.0, other.1, ground (arith, other, not_met w a b apart)), refl);
  inserts = λ a b index w parent child ne root within. (
    ((child.0, child.1, child.2), ground arith),
    λ c other there. (there, ground (arith, other)),
  );
  removes = λ a b w parent child own. (
    (child, ground arith),
    (λ c other there. (there, ground (arith, other))),
    count-removed w a b parent.0 child.1 child.2 own,
  );
  quiet = λ a w w' there quiet. quiet_same a w w' quiet;
}

-- Three nodes in a chain, the last moved, and the chain freed from its root.
abbrev history : List Call
history =
    creates
    ∷ creates
    ∷ creates
    ∷ inserts 0x10001 0x10002 (pos 0)
    ∷ inserts 0x10002 0x10003 (pos 0)
    ∷ moves 0x10002 0x10003 (pos 0)
    ∷ frees_recursively 0x10001
    ∷ creates
    ∷ []

abbrev empty : Heap
empty = record { next = 1; live = λ b. false; owner = λ b. 0 }

run-initial-Agrees_example : Agrees heap_tree (run keeping (initial keeping empty) history)
run-initial-Agrees_example = run-initial-Agrees heap_tree heap-IsLibrary empty history (
  tt,
  (
    tt,
    (tt, ((omega arith, omega arith), ((omega arith, omega arith), (tt, (omega arith, (tt, tt)))))),
  ),
)
