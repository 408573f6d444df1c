-- ===== src/LinkedList/Copy.antt =====
-- Copies and the destructor of inc/list.hpp.
use hermesconcurrencyengine.Common.{
  ℕ, ◌+◌, ◌<◌, ◌^◌, ◌≡◌, ◌≢◌, refl, sym, subst, ap, ◌∙◌, Option, none, some, List, [], ◌∷◌, ◌++◌,
  All, append_assoc, append-nil, length, length-append, arith, Option-cases, inl, inr,
}
use hermesconcurrencyengine.LinkedList.{
  Node, Store, LinkedList, Changed, make, write, set_next, emplace_back, copy_loop, copy_assign,
  copy_construct, destroy_loop,
}
use hermesconcurrencyengine.LinkedList.Chain.{
  Cell, first, last, Linked, Free, Distinct, Apart, write-eq, write-ne, Linked-write, Free-append,
}
use hermesconcurrencyengine.LinkedList.Refine.{IsList, cell, emplace_back-IsList, make-IsList}

module _ {A : Type 0} where
  set_next-other :
      (h : Store A) (q : ℕ) (o : Option ℕ) (ds : List (Cell A))
      → Linked h ds
      → Free q ds
      → Linked (set_next h (some q) o) ds
  unfolding set_next
  set_next-other h q o ds v f = elim (Option-cases (h q)) [
    | inl e ↦ rw (e, set_next) v
    | inr (n, e) ↦ rw (e, set_next) (Linked-write h q (some (record n { next = o })) ds v f)
  ]

  Apart-last :
      (c : Cell A) (cs ds : List (Cell A)) → Apart (c ∷ cs) ds → Free (last c cs).address ds
  Apart-last c [] ds a = a.0
  Apart-last c (d ∷ cs) ds a = Apart-last d cs ds a.1

  Apart-snoc :
      (cs ds : List (Cell A)) (c : Cell A)
      → Apart cs ds
      → Free c.address ds
      → Apart (cs ++ c ∷ []) ds
  Apart-snoc [] ds c a f = (f, tt)
  Apart-snoc (b ∷ cs) ds c a f = (a.0, Apart-snoc cs ds c a.1 f)

  emplace_back-other :
      (h : Store A) (l : LinkedList) (cs ds : List (Cell A)) (p : ℕ) (a : A)
      → IsList h l cs
      → Free p ds
      → Apart cs ds
      → Linked h ds
      → Linked (emplace_back h l p a).store ds
  unfolding emplace_back
  emplace_back-other h l [] ds p a v f apart w =
      let n : Option (Node A) = some (record { value = a; next = none }) in
      let went : (emplace_back h l p a).store ≡ write h p n = ground (arith, v.sized) in
      subst (λ k. Linked k ds) (sym went) (Linked-write h p n ds w f)
  emplace_back-other h l (c ∷ cs) ds p a v f apart w =
      let n : Option (Node A) = some (record { value = a; next = none }) in
      let went : (emplace_back h l p a).store ≡ set_next (write h p n) l.tail (some p) =
        ground (arith, v.sized) in
      subst (λ k. Linked k ds) (sym (went ∙ ap (λ t. set_next (write h p n) t (some p)) v.ends))
        (set_next-other (write h p n) (last c cs).address (some p) ds (Linked-write h p n ds w f)
          (Apart-last c cs ds apart))

  -- Addresses that differ from each other and from those of two chains.
  abbrev pub Fresh : List ℕ → List (Cell A) → List (Cell A) → Type 0
  Fresh [] cs ds = Unit {0}
  Fresh (p ∷ ps) cs ds = Free p cs × Free p ds × All (λ q. q ≢ p) ps × Fresh ps cs ds

  Fresh-snoc :
      (ps : List ℕ) (cs ds : List (Cell A)) (p : ℕ) (a : A)
      → Fresh ps cs ds
      → All (λ q. q ≢ p) ps
      → Fresh ps (cs ++ cell p a ∷ []) ds
  Fresh-snoc [] cs ds p a f g = tt
  Fresh-snoc (q ∷ ps) cs ds p a (f, f2, f3, f4) (g, g2) =
      (Free-append q cs (cell p a ∷ []) f (g, tt), f2, f3, Fresh-snoc ps cs ds p a f4 g2)

  Apart-tail :
      (cs : List (Cell A)) (d : Cell A) (ds : List (Cell A)) → Apart cs (d ∷ ds) → Apart cs ds
  Apart-tail [] d ds a = tt
  Apart-tail (c ∷ cs) d ds a = (a.0.1, Apart-tail cs d ds a.1)

  Fresh-tail :
      (ps : List ℕ) (cs : List (Cell A)) (d : Cell A) (ds : List (Cell A))
      → Fresh ps cs (d ∷ ds)
      → Fresh ps cs ds
  Fresh-tail [] cs d ds f = tt
  Fresh-tail (p ∷ ps) cs d ds (f, f2, f3, f4) = (f, f2.1, f3, Fresh-tail ps cs d ds f4)

  -- New nodes with the values of a chain.
  abbrev pub copies : List ℕ → List (Cell A) → List (Cell A)
  copies ps [] = []
  copies [] (d ∷ ds) = []
  copies (p ∷ ps) (d ∷ ds) = cell p d.value ∷ copies ps ds

  -- The list got copies of the nodes `ds` at the end, and the nodes `ws` are as they were.
  abbrev pub Copied : List (Cell A) → List (Cell A) → Changed A → Type 0
  Copied cs ws r = IsList r.store r.list cs × Linked r.store ws

  copy_loop-cons :
      (h : Store A) (l : LinkedList) (p : ℕ) (ps : List ℕ) (d : Cell A) (next : Option ℕ)
      → h d.address ≡ some (record { value = d.value; next = next })
      → (emplace_back h l p d.value).store d.address
        ≡ some (record { value = d.value; next = next })
      → let r = emplace_back h l p d.value in
        copy_loop (p ∷ ps) h l (some d.address) ≡ copy_loop ps r.store r.list next
  unfolding copy_loop
  copy_loop-cons h l p ps d next e f = rw (copy_loop, e, f) refl

  copy_loop-Copied :
      (ps : List ℕ) (h : Store A) (l : LinkedList) (cs ds ws : List (Cell A))
      → IsList h l cs
      → Linked h ds × Apart cs ds × Fresh ps cs ds
      → Linked h ws × Apart cs ws × Fresh ps cs ws
      → length ps ≡ length ds
      → length cs + length ds < 2 ^ 64
      → (r : Changed A) × (copy_loop ps h l (first ds) ≡ some r) × Copied (cs ++ copies ps ds) ws r
  unfolding copy_loop
  copy_loop-Copied ps h l cs [] ws v (w, apart, fresh) (w2, apart2, fresh2) e room =
      (record { store = h; list = l }, refl, (subst (IsList h l) (sym (append-nil cs)) v, w2))
  copy_loop-Copied [] h l cs (d ∷ ds) ws v (w, apart, fresh) (w2, apart2, fresh2) e room =
      absurd (omega arith)
  copy_loop-Copied (p ∷ ps) h l cs (d ∷ ds) ws v (w, apart, (free, fresh, other, more))
        (w2, apart2, (free2, fresh2, other2, more2)) e room =
      let r = emplace_back h l p d.value in
      let n = cell p d.value in
      let after = emplace_back-other h l cs (d ∷ ds) p d.value v fresh apart w in
      let kept = emplace_back-other h l cs ws p d.value v fresh2 apart2 w2 in
      let longer = emplace_back-IsList h l cs p d.value v free (omega arith) in
      let (result, ran, (copied, same)) =
        copy_loop-Copied ps r.store r.list (cs ++ n ∷ []) ds ws longer
          (
            after.1,
            Apart-snoc cs ds n (Apart-tail cs d ds apart) fresh.1,
            Fresh-snoc ps cs ds p d.value (Fresh-tail ps cs d ds more) other,
          )
          (kept, Apart-snoc cs ws n apart2 fresh2, Fresh-snoc ps cs ws p d.value more2 other2)
          (omega arith) (omega (arith, length-append cs (n ∷ []))) in
      (
        result,
        copy_loop-cons h l p ps d (first ds) w.0 after.0 ∙ ran,
        (
          subst (IsList result.store result.list) (append_assoc cs (n ∷ []) (copies ps ds)) copied,
          same,
        ),
      )

  -- If two lists in one store have the nodes `cs` and `ds`, none at the address of another and
  -- together fewer than 2^64, and the allocator returns one fresh address for each of `ds`, then
  -- the copy assignment ends; it leaves a list with the nodes `cs` and then copies of `ds`, and the
  -- other list as it was.
  pub copy_assign_lem :
      (ps : List ℕ) (h : Store A) (l rhs : LinkedList) (cs ds : List (Cell A))
      → IsList h l cs
      → IsList h rhs ds
      → Apart cs ds
      → Fresh ps cs ds
      → length ps ≡ length ds
      → length cs + length ds < 2 ^ 64
      → (r : Changed A) × (copy_assign ps h l rhs ≡ some r)
        × IsList r.store r.list (cs ++ copies ps ds)
        × IsList r.store rhs ds
  unfolding copy_assign
  copy_assign_lem ps h l rhs cs ds v w apart fresh e room =
      let chain : Linked h ds × Apart cs ds × Fresh ps cs ds = (w.linked, apart, fresh) in
      let (r, ran, (copied, same)) = copy_loop-Copied ps h l cs ds ds v chain chain e room in
      (
        r,
        ap (copy_loop ps h l) w.starts ∙ ran,
        copied,
        record {
          starts = w.starts;
          ends = w.ends;
          sized = w.sized;
          small = w.small;
          linked = same;
          distinct = w.distinct;
        },
      )

  -- If a list has the nodes `ds`, and the allocator returns one fresh address for each, then the
  -- copy constructor ends, with a list of copies of `ds`, and the other list as it was.
  pub copy_construct_lem :
      (ps : List ℕ) (h : Store A) (rhs : LinkedList) (ds : List (Cell A))
      → IsList h rhs ds
      → Fresh ps [] ds
      → length ps ≡ length ds
      → (r : Changed A) × (copy_construct ps h rhs ≡ some r)
        × IsList r.store r.list (copies ps ds)
        × IsList r.store rhs ds
  unfolding copy_construct
  copy_construct_lem ps h rhs ds w fresh e =
      copy_assign_lem ps h make rhs [] ds (make-IsList h) w tt fresh e (omega (arith, w.small))

  -- The loop of the destructor ends after as many rounds as the list has nodes; no node is then at
  -- their addresses, and every other address is as it was.
  pub destroy_loop-Freed :
      (h : Store A) (ds : List (Cell A))
      → Linked h ds
      → Distinct ds
      → (k : Store A) × (destroy_loop (length ds) h (first ds) ≡ some k)
        × All (λ d. k d.address ≡ none) ds
        × ((q : ℕ) → Free q ds → k q ≡ h q)
  unfolding destroy_loop
  destroy_loop-Freed h [] v w = (h, refl, tt, λ q f. refl)
  destroy_loop-Freed h (d ∷ ds) v w =
      let freed = write h d.address none in
      let (k, ran, all_freed, others) =
        destroy_loop-Freed freed ds (Linked-write h d.address none ds v.1 w.0) w.1 in
      (
        k,
        rw (destroy_loop, v.0) ran,
        (others d.address w.0 ∙ write-eq h d.address none, all_freed),
        λ q f. others q f.1 ∙ write-ne h d.address q none (λ e. f.0 (sym e)),
      )
