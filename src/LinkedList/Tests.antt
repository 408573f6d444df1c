-- ===== src/LinkedList/Tests.antt =====
-- The list of inc/list.hpp with two nodes, and one more.
use hermesconcurrencyengine.Common.{ℕ, zero, suc, ◌≡◌, refl, none, some, [], ◌∷◌, arith}
use hermesconcurrencyengine.LinkedList.Copy.{copy_assign_lem}
use hermesconcurrencyengine.LinkedList.{Changed, copy_assign, Store, LinkedList}
use hermesconcurrencyengine.LinkedList.Refine.{IsList, cell}

-- The value 10 at address 1 and then 20 at 0; and 30 at 2.
abbrev store : Store ℕ
store zero = some (record { value = 20; next = none })
store (suc zero) = some (record { value = 10; next = some 0 })
store (suc (suc zero)) = some (record { value = 30; next = none })
store (suc (suc (suc p))) = none

abbrev pair : LinkedList
pair = record { head = some 1; tail = some 0; size = 2 }

abbrev single : LinkedList
single = record { head = some 2; tail = some 2; size = 1 }

pair-IsList : IsList store pair (cell 1 10 ∷ cell 0 20 ∷ [])
pair-IsList = record {
  starts = refl;
  ends = refl;
  sized = refl;
  small = omega arith;
  linked = (refl, (refl, tt));
  distinct = ground arith;
}

single-IsList : IsList store single (cell 2 30 ∷ [])
single-IsList = record {
  starts = refl;
  ends = refl;
  sized = refl;
  small = omega arith;
  linked = (refl, tt);
  distinct = (tt, tt);
}

-- The copy assignment of a list with one node to a list with two leaves three nodes.
copy_assign_lem_example :
    (r : Changed ℕ) × (copy_assign (5 ∷ []) store pair single ≡ some r)
    × IsList r.store r.list (cell 1 10 ∷ cell 0 20 ∷ cell 5 30 ∷ [])
    × IsList r.store single (cell 2 30 ∷ [])
copy_assign_lem_example =
    copy_assign_lem (5 ∷ []) store pair single (cell 1 10 ∷ cell 0 20 ∷ []) (cell 2 30 ∷ [])
      pair-IsList single-IsList (ground arith) (ground arith) refl (omega arith)
