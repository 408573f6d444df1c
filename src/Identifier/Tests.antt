-- ===== src/Identifier/Tests.antt =====
-- Identifiers of inc/id.hpp at concrete calls: one is made, copied and dropped.
use hermesconcurrencyengine.Common.{true, false, none, some, [], ◌∷◌, ◌≡◌, refl}
use hermesconcurrencyengine.Identifier.{
  Identifiers, Call, equal_bytes, constructs, makes, resets, copies, move_assigns, destroys,
  no_objects, step, construct, make, reset, copy_construct, move_assign, destroy, put, replace,
  let_go, is_equal, differs, is_set,
}
use hermesconcurrencyengine.Identifier.Refine.{Run, number, none_yet, then_both}
use hermesconcurrencyengine.Identifier.Identity.{is_equal-number}

abbrev after : Identifiers → Call → Identifiers
after p c = elim (step p c) [ some next ↦ next | none ↦ p ]

abbrev made : Identifiers
made = after (after no_objects constructs) (makes 0 40)

abbrev shared : Identifiers
shared = after made (copies 0)

abbrev left : Identifiers
left = after shared (resets 0)

-- The byte 40 is given back, and is that of a later identifier.
abbrev dropped : Identifiers
dropped = after (after made constructs) (resets 0)

abbrev made_again : Identifiers
made_again = after dropped (makes 1 40)

steps : Run false made_again (
    number
      (number
        (number
          (number (number (record { objects = []; next = 0 }) constructs) (makes 0 40))
          constructs)
        (resets 0))
      (makes 1 40))
unfolding step construct make reset put replace let_go
steps =
    then_both dropped _ (makes 1 40) made_again
      (then_both (after made constructs) _ (resets 0) dropped
        (then_both made _ constructs (after made constructs)
          (then_both (after no_objects constructs) _ (makes 0 40) made
            (then_both no_objects _ constructs (after no_objects constructs) none_yet tt tt refl) tt
            refl refl)
          tt tt refl)
        tt tt refl)
      tt refl refl

is_equal-number_example :
    (is_equal 0 1 made_again ≡ equal_bytes none (some 4)) × (is_set 0 made_again ≡ false)
is_equal-number_example = is_equal-number steps 0 1

still_in_use : left ≡ record { objects = none ∷ some 40 ∷ []; bytes = 40 ∷ [] }
unfolding step construct make reset copy_construct put replace let_go
still_in_use = refl

given_back : after left (destroys 1) ≡ record { objects = none ∷ none ∷ []; bytes = [] }
unfolding step construct make reset copy_construct put replace let_go destroy
given_back = refl

equal_to_copy : (is_equal 0 1 shared ≡ true) × (is_set 0 left ≡ false) × (differs 0 1 left ≡ true)
unfolding step construct make copy_construct put replace let_go is_equal differs is_set reset
equal_to_copy = (refl, refl, refl)

moved_to_itself : step shared (move_assigns 1 1) ≡ some shared
unfolding step construct make copy_construct put replace let_go move_assign
moved_to_itself = refl
