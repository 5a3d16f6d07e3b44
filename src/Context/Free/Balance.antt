-- ===== src/Context/Free/Balance.antt =====
-- What the constructors of the contexts hang on the tree is what `freeContexts` of site.cpp deletes.
use vaedb.Common.{
  ℕ, ◌+◌, ◌≡◌, sym, ap, ◌∙◌, Bool, Option, none, some, List, Bytes, arith, Bool-cases, inl, inr,
  subst,
}
use vaedb.Common.Int.{ℤ, pos, ltb_ℤ}
use vaedb.Common.Outcome.{Outcome, done, >>=-eq-done, done-injective}
use vaedb.Context.{Structure, Context}
use vaedb.Context.Build.{
  feed_element, feed_other, FeedNodes, end, then_node, Building, Attrs, no_attrs, Made,
  is_association, read_attrs, typed, made_of, descend, finish, register, new_context, placed,
  build_children, build_roots,
}
use vaedb.Context.Free.{
  free_contexts, times, times-append, made_contexts, IsFresh, fresh-free_contexts,
}

module _ (atoi : Bytes → ℤ) (staging_mode : Bool)
    (structure_from_structure_id : ℤ
      → List (ℤ × Structure)
      → Outcome (List (ℤ × Structure) × Option Structure))
    (k : ℕ) where
  -- What was made between two states hangs on the tree that is left.
  abbrev Balance : Building → FeedNodes → Building → Type 0
  Balance s left s' =
      times k (free_contexts left) + times k (made_contexts s) ≡ times k (made_contexts s')

  typed_same :
      (structure_id : ℤ) (s s' : Building) (structure : Option Structure)
      → typed atoi staging_mode structure_from_structure_id structure_id s ≡ done (s', structure)
      → made_contexts s' ≡ made_contexts s
  unfolding typed made_contexts
  typed_same structure_id s s' structure h = elim (Bool-cases (ltb_ℤ (pos 0) structure_id)) [
    | inl e ↦
        let ((structures, found), _, h1) =
          >>=-eq-done (structure_from_structure_id structure_id s.structures) _ (rw e at h) in
        ap (λ (x : Building × Option Structure). made_contexts x.0) (sym (done-injective h1))
    | inr e ↦
        ap (λ (x : Building × Option Structure). made_contexts x.0)
          (sym (done-injective (rw e at h)))
  ]

  abbrev Balances : (Building → Outcome (Building × FeedNodes)) → Type 0
  Balances loop =
      (s s' : Building) (left : FeedNodes) → loop s ≡ done (s', left) → Balance s left s'

  descend_balanced :
      (loop : Building → Outcome (Building × FeedNodes)) (c : Context) (children : FeedNodes)
      → IsFresh children
      → Balances loop
      → Balances (descend atoi staging_mode structure_from_structure_id loop c children)
  unfolding descend made_contexts times
  descend_balanced loop c children fresh keeps s s' left h =
      elim (Bool-cases (is_association c.type)) [
        | inl e ↦
            let is = done-injective (rw e at h) in
            let same : made_contexts s ≡ made_contexts s' =
              ap (λ (x : Building × FeedNodes). made_contexts x.0) is in
            let tree : children ≡ left = ap (λ (x : Building × FeedNodes). x.1) is in
            let none_ : times k (free_contexts left) ≡ 0 =
              ap (λ (x : FeedNodes). times k (free_contexts x)) (sym tree)
              ∙ ap (times k) (fresh-free_contexts children fresh) in
            let t2 = ap (times k) same in omega (arith, none_, t2)
        | inr e ↦ keeps s s' left (rw e at h)
      ]

  -- What the constructor has made below its node.
  abbrev below_made : Made → FeedNodes
  below_made none = end
  below_made (some (c, left)) = left

  finish_balanced :
      (loop : Building → Outcome (Building × FeedNodes)) (node : ℕ) (children : FeedNodes)
      (s s' : Building) (made : Made) (read : Option Attrs)
      → IsFresh children
      → Balances loop
      → finish atoi staging_mode structure_from_structure_id loop node children s read
        ≡ done (s', made)
      → Balance s (below_made made) s'
  unfolding finish free_contexts times register made_contexts
  finish_balanced loop node children s s' made none fresh keeps h =
      let is = done-injective h in
      let m : none ≡ made = ap (λ (x : Building × Made). x.1) is in
      let t = ap (λ (x : Building × Made). times k (made_contexts x.0)) is in
      rw (← m) (omega (arith, t))
  finish_balanced loop node children s s' made (some a) fresh keeps h =
      let ((s1, structure), t, h1) =
        >>=-eq-done (typed atoi staging_mode structure_from_structure_id a.structure_id s) _ h in
      let c = made_of atoi staging_mode structure_from_structure_id node a structure in
      let ((s2, left), below, h2) =
        >>=-eq-done (descend atoi staging_mode structure_from_structure_id loop c children s1) _
          h1 in
      let is = done-injective h2 in
      let m : some (c, left) ≡ made = ap (λ (x : Building × Made). x.1) is in
      let t2 = ap (λ (x : Building × Made). times k (made_contexts x.0)) is in
      let first = ap (times k) (typed_same a.structure_id s s1 structure t) in
      let under = descend_balanced loop c children fresh keeps s1 s2 left below in
      rw (← m) (omega (arith, t2, first, under))

  new_context_balanced :
      (loop : Building → Outcome (Building × FeedNodes)) (node : ℕ)
      (properties : List (Bytes × Option Bytes)) (children : FeedNodes) (s s' : Building)
      (made : Made)
      → IsFresh children
      → Balances loop
      → new_context atoi staging_mode structure_from_structure_id loop node properties children s
        ≡ done (s', made)
      → Balance s (below_made made) s'
  unfolding new_context
  new_context_balanced loop node properties children s s' made fresh keeps h =
      let (read, found, h1) = >>=-eq-done (read_attrs atoi staging_mode properties no_attrs) _ h in
      finish_balanced loop node children s s' made read fresh keeps h1

  -- A child that is kept adds its own context to those below it.
  placed_balanced :
      (node : ℕ) (properties : List (Bytes × Option Bytes)) (s : Building) (made : Made)
      (rest : FeedNodes)
      → let (s', put) =
          placed atoi staging_mode structure_from_structure_id node properties s made in
        times k (free_contexts (put rest)) + times k (made_contexts s)
        ≡ times k (free_contexts rest)
          + times k (free_contexts (below_made made))
          + times k (made_contexts s')
  unfolding placed times made_contexts free_contexts
  placed_balanced node properties s none rest = omega arith
  placed_balanced node properties s (some (c, left)) rest =
      omega (arith, times-append k (free_contexts left) (free_contexts rest))

  -- One element of a loop, with the loop over the rest.
  element_balanced :
      (node : ℕ) (properties : List (Bytes × Option Bytes)) (s s1 s' : Building) (made : Made)
      (rest : FeedNodes)
      → Balance s (below_made made) s1
      → Balance
          ((placed atoi staging_mode structure_from_structure_id node properties s1 made).0)
          rest
          s'
      → Balance s
          ((placed atoi staging_mode structure_from_structure_id node properties s1 made).1 rest)
          s'
  element_balanced node properties s s1 s' made rest here later =
      omega (arith, placed_balanced node properties s1 made rest, here, later)

  -- The same tree behind one more `done`.
  closed :
      (s s1 s' : Building) (left left1 : FeedNodes)
      → ◌≡◌ {A = Building × FeedNodes} (s1, left1) (s', left)
      → Balance s left1 s1
      → Balance s left s'
  closed s s1 s' left left1 is b = subst (λ (x : Building × FeedNodes). Balance s x.1 x.0) is b

  build_children_balanced :
      (feed : FeedNodes)
      → IsFresh feed
      → Balances (build_children atoi staging_mode structure_from_structure_id feed)
  unfolding build_children free_contexts times
  build_children_balanced end fresh s s' left h =
      closed s s s' left end (done-injective h) (omega arith)
  build_children_balanced (then_node feed_other rest) fresh s s' left h =
      let ((s1, left1), later, h1) =
        >>=-eq-done (build_children atoi staging_mode structure_from_structure_id rest s) _ h in
      closed s s1 s' left (then_node feed_other left1) (done-injective h1)
        (build_children_balanced rest fresh s s1 left1 later)
  build_children_balanced (then_node (feed_element node properties (some c) children) rest) fresh s
        s' left h =
      absurd (cc (fresh.0))
  build_children_balanced (then_node (feed_element node properties none children) rest) fresh s s'
        left h =
      let ((s1, made), here, h1) =
        >>=-eq-done
          (new_context atoi staging_mode structure_from_structure_id
            (build_children atoi staging_mode structure_from_structure_id children) node properties
            children s)
          _ h in
      let b1 =
        new_context_balanced (build_children atoi staging_mode structure_from_structure_id children)
          node properties children s s1 made fresh.1 (build_children_balanced children fresh.1)
          here in
      let ((s3, left3), later, h3) = >>=-eq-done _ _ h1 in
      closed s s3 s' left _ (done-injective h3) (
        element_balanced node properties s s1 s3 made left3 b1
          (build_children_balanced rest fresh.2 _ s3 left3 later))

  -- On a feed that hangs no contexts on its nodes, the contexts that `freeContexts` deletes in the tree that
  -- is left are those that were made, each as often as it was made: none is deleted twice and none is
  -- forgotten. The contexts of unlinked staging nodes do not count, and associations are not initialized.
  pub free_contexts-made :
      (feed left : FeedNodes) (s s' : Building)
      → IsFresh feed
      → build_roots atoi staging_mode structure_from_structure_id feed s ≡ done (s', left)
      → times k (free_contexts left) + times k (made_contexts s) ≡ times k (made_contexts s')
  unfolding build_roots free_contexts times
  free_contexts-made end left s s' fresh h = closed s s s' left end (done-injective h) (omega arith)
  free_contexts-made (then_node feed_other rest) left s s' fresh h =
      let ((s1, left1), later, h1) =
        >>=-eq-done (build_roots atoi staging_mode structure_from_structure_id rest s) _ h in
      closed s s1 s' left (then_node feed_other left1) (done-injective h1)
        (free_contexts-made rest left1 s s1 fresh later)
  free_contexts-made (then_node (feed_element node properties private children) rest) left s s'
        fresh h =
      let ((s1, made), here, h1) =
        >>=-eq-done
          (new_context atoi staging_mode structure_from_structure_id
            (build_children atoi staging_mode structure_from_structure_id children) node properties
            children s)
          _ h in
      let b1 =
        new_context_balanced (build_children atoi staging_mode structure_from_structure_id children)
          node properties children s s1 made fresh.1 (build_children_balanced children fresh.1)
          here in
      let ((s3, left3), later, h3) = >>=-eq-done _ _ h1 in
      closed s s3 s' left _ (done-injective h3) (
        element_balanced node properties s s1 s3 made left3 b1
          (free_contexts-made rest left3 _ s3 fresh.2 later))
