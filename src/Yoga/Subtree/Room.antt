-- ===== src/Yoga/Subtree/Room.antt =====
-- The array of handles in yoga_stubs.c has room for every node that waits.
use opentui_ocaml.Prelude.{
  ℕ, zero, suc, ◌+◌, ◌^◌, ◌≤◌, ◌<◌, ◌≡◌, ◌≢◌, refl, sym, ap, ◌∙◌, inl, inr, Bool, true, false, none,
  some, List, [], ◌∷◌, arith, ◌==◌, length, Bool-cases, subst,
}
use opentui_ocaml.Slots.Laws.{from_token-Names, from_token-injective}
use opentui_ocaml.Yoga.{Nodes, yoga_node_capacity, yoga_node_from_handle}
use opentui_ocaml.Yoga.Count.{count, mark, count-mark, count_below}
use opentui_ocaml.Yoga.Subtree.{is_child, handle_of, push_children, push_children_bounded}
use opentui_ocaml.Yoga.Subtree.Children.{In, Distinct}
use opentui_ocaml.Yoga.Subtree.Renderable.{bounded_skip, bounded_push}
use opentui_ocaml.Yoga.Subtree.Walk.{Walk, dead}

-- A handle that names a slot which is not marked.
record Names (t : Nodes) (marked : ℕ → Bool) (e : ℕ) : Type 0 where
  word : e < 2 ^ 32
  slot : ℕ
  names : yoga_node_from_handle t e ≡ some slot
  free : marked slot ≡ false

length-count :
    (t : Nodes) (es : List ℕ) (marked : ℕ → Bool)
    → Distinct es
    → ((e : ℕ) → In e es → Names t marked e)
    → length es ≤ count yoga_node_capacity marked
unfolding yoga_node_from_handle
length-count t [] marked d n = omega arith
length-count t (e ∷ es) marked d n =
    let top = n e (inl refl) in
    let m = from_token-Names yoga_node_capacity t e top.slot top.names in
    let one = count-mark yoga_node_capacity marked top.slot m.2 top.free in
    let rest = length-count t es (mark marked top.slot) d.1 (λ f i.
      (let other = n f (inr i) in
        let apart : top.slot ≢ other.slot = λ same. d.0 (
          subst (λ x. In x es)
            (from_token-injective yoga_node_capacity t f e top.slot other.word top.word
              (other.names ∙ ap some (sym same)) top.names)
            i) in
        record {
          word = other.word;
          slot = other.slot;
          names = other.names;
          free = ground (arith, apart, other.free);
        })) in
    omega (arith, one, rest)

-- Handles that wait are fewer than the slots of the array.
pub waiting-lt :
    (t : Nodes) (pending : List ℕ) → Walk t pending → length pending < yoga_node_capacity
unfolding yoga_node_from_handle
waiting-lt t pending walk = omega (
  arith,
  count_below 4095 (dead t) refl,
  length-count t pending (dead t) walk.distinct (λ e i.
      (let waiting = walk.waits e i in
        let m = from_token-Names yoga_node_capacity t e waiting.slot waiting.names in
        record {
          word = waiting.word;
          slot = waiting.slot;
          names = waiting.names;
          free = ground (arith, m.1, m.3);
        })),
)

push_children-grows :
    (rounds index : ℕ) (t : Nodes) (h : ℕ) (pending : List ℕ)
    → length pending ≤ length (push_children rounds index t h pending)
unfolding push_children
push_children-grows zero index t h pending = omega arith
push_children-grows (suc rounds) index t h pending = ground (
  arith,
  push_children-grows rounds (index + 1) t h (handle_of t index ∷ pending),
  push_children-grows rounds (index + 1) t h pending,
)

-- The loop that pushes children does not fill the array if what it leaves fits.
pub push_children_bounded_fits :
    (rounds index : ℕ) (t s : Nodes) (h : ℕ) (pending : List ℕ)
    → ((i : ℕ) → is_child t h i ≡ is_child s h i)
    → ((i : ℕ) → is_child s h i ≡ true → handle_of t i ≡ handle_of s i)
    → length (push_children rounds index s h pending) < yoga_node_capacity
    → push_children_bounded rounds index t h pending ≢ none
unfolding push_children_bounded push_children
push_children_bounded_fits zero index t s h pending same handles fits e = cc
push_children_bounded_fits (suc rounds) index t s h pending same handles fits e =
    elim (Bool-cases (is_child s h index)) [
      | inl child ↦
          let fits_on : length (push_children rounds (index + 1) s h (handle_of s index ∷ pending))
              < yoga_node_capacity =
            rw child at fits in
          let grown = push_children-grows rounds (index + 1) s h (handle_of s index ∷ pending) in
          let room : (length pending == yoga_node_capacity) ≡ false =
            ground (arith, fits_on, grown) in
          push_children_bounded_fits rounds (index + 1) t s h (handle_of s index ∷ pending) same
            handles fits_on
            (ap (λ x. push_children_bounded rounds (index + 1) t h (x ∷ pending))
                (sym (handles index child))
              ∙ sym (bounded_push rounds index t h pending (same index ∙ child) room)
              ∙ e)
      | inr no_child ↦
          push_children_bounded_fits rounds (index + 1) t s h pending same handles
            (rw no_child at fits)
            (sym (bounded_skip rounds index t h pending (same index ∙ no_child)) ∙ e)
    ]
