-- ===== src/Context/Free.antt =====
-- `freeContexts` of site.cpp on the tree that the constructors of the contexts leave.
pub mod Balance
use vaedb.Common.{
  ℕ, ◌+◌, ◌≡◌, refl, sym, ap, ◌∙◌, Bool, Option, none, some, List, [], ◌∷◌, ◌++◌, map, Bytes, arith,
  Bool-cases, inl, inr, ◌==◌, if◌then◌else◌, subst,
}
use vaedb.Common.Int.{ℤ, pos, ltb_ℤ}
use vaedb.Common.Outcome.{Outcome, done, >>=-eq-done, done-injective}
use vaedb.Context.{Structure, Context}
use vaedb.Context.Build.{
  feed_element, feed_other, FeedNodes, end, then_node, Building, Attrs, no_attrs, Made,
  is_association, read_attrs, typed, made_of, descend, finish, register, new_context, placed,
  build_children, build_roots,
}

-- The contexts that are deleted, in order.
unfoldable pub free_contexts : FeedNodes → List ℕ
free_contexts end = []
free_contexts (then_node feed_other rest) = free_contexts rest
free_contexts (then_node (feed_element node properties none children) rest) =
    free_contexts children ++ free_contexts rest
free_contexts (then_node (feed_element node properties (some c) children) rest) =
    c ∷ (free_contexts children ++ free_contexts rest)

-- How often a context is in a list.
unfoldable pub times : ℕ → List ℕ → ℕ
times k [] = 0
times k (c ∷ cs) = (if c == k then 1 else 0) + times k cs

pub times-append : (k : ℕ) (cs ds : List ℕ) → times k (cs ++ ds) ≡ times k cs + times k ds
unfolding times
times-append k [] ds = omega arith
times-append k (c ∷ cs) ds = omega (arith, times-append k cs ds)

-- The contexts that were made.
unfoldable pub made_contexts : Building → List ℕ
made_contexts s = map (λ (e : ℕ × Context). e.0) s.contexts

-- No context hangs on any node yet.
abbrev pub IsFresh : FeedNodes → Type 0
IsFresh end = Unit
IsFresh (then_node feed_other rest) = IsFresh rest
IsFresh (then_node (feed_element node properties private children) rest) =
    (private ≡ none) × IsFresh children × IsFresh rest

pub fresh-free_contexts : (feed : FeedNodes) → IsFresh feed → free_contexts feed ≡ []
unfolding free_contexts
fresh-free_contexts end h = refl
fresh-free_contexts (then_node feed_other rest) h = fresh-free_contexts rest h
fresh-free_contexts (then_node (feed_element node properties none children) rest) h =
    rw (fresh-free_contexts children h.1, fresh-free_contexts rest h.2) refl
fresh-free_contexts (then_node (feed_element node properties (some c) children) rest) h =
    absurd (cc (h.0))
