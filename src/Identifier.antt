-- ===== src/Identifier.antt =====
-- inc/id.hpp: `sid`, whose objects share a byte of the heap, and `uid`, which has the same operations
-- but the copies (Unique). An identifier is the address of its byte; what it promises, that no two
-- calls of `make` give the same one, is in Refine and Identity.
pub mod Sharing
pub mod Distinct
pub mod Unique
pub mod Refine
pub mod Pairs
pub mod Identity
mod Tests
use hermesconcurrencyengine.Common.{
  ℕ, zero, suc, ◌+◌, Bool, true, false, Option, none, some, List, [], ◌∷◌, ◌++◌, ◌==◌, not, is_same,
}

-- The byte that each object holds, if any, in the order of their construction, and the bytes that are
-- in use: those from `hce::allocate` that were not given back.
pub record Identifiers : Type 0 where
  pub objects : List (Option ℕ)
  pub bytes : List ℕ

-- `byte_` before it was replaced, and the objects after it.
pub record Replaced : Type 0 where
  pub old : Option ℕ
  pub next : List (Option ℕ)

abbrev pub no_objects : Identifiers
no_objects = record { objects = []; bytes = [] }

abbrev pub behind : Option ℕ → Option Replaced → Option Replaced
behind o none = none
behind o (some r) = some (record r { next = o ∷ r.next })

-- `none` where there is no such object.
unfoldable pub replace : List (Option ℕ) → ℕ → Option ℕ → Option Replaced
replace [] i v = none
replace (o ∷ os) zero v = some (record { old = o; next = v ∷ os })
replace (o ∷ os) (suc i) v = behind o (replace os i v)

abbrev pub byte_at : List (Option ℕ) → ℕ → Option ℕ
byte_at [] i = none
byte_at (o ∷ os) zero = o
byte_at (o ∷ os) (suc i) = byte_at os i

abbrev pub holds : ℕ → Option ℕ → ℕ
holds b none = 0
holds b (some a) = is_same b a

-- How many objects hold the byte: the count of the `std::shared_ptr`.
abbrev pub use_count : ℕ → List (Option ℕ) → ℕ
use_count b [] = 0
use_count b (o ∷ os) = holds b o + use_count b os

abbrev pub remove : ℕ → List ℕ → List ℕ
remove b [] = []
remove b (x ∷ xs) = elim (b == x) [ true ↦ xs | false ↦ x ∷ remove b xs ]

-- The last object that lets go of a byte gives it back.
unfoldable pub let_go : Option ℕ → Identifiers → Identifiers
let_go none p = p
let_go (some b) p = elim (use_count b p.objects == 0) [
  | true ↦ record p { bytes = remove b p.bytes }
  | false ↦ p
]

-- What is put in an object, in place of what it let go of.
abbrev pub put_from : Option Replaced → Identifiers → Option Identifiers
put_from none p = none
put_from (some r) p = some (let_go r.old (record p { objects = r.next }))

unfoldable pub put : ℕ → Option ℕ → Identifiers → Option Identifiers
unfolding replace
put i v p = put_from (replace p.objects i v) p

-- What an object held is moved out of it, to a new one.
abbrev pub taken_from : Option Replaced → Identifiers → Option Identifiers
taken_from none p = none
taken_from (some r) p = some (record p { objects = r.next ++ r.old ∷ [] })

-- `make_shared`, where `address` is that of the byte.
abbrev pub make_byte : ℕ → Identifiers → Identifiers
make_byte address p = record p { bytes = address ∷ p.bytes }

unfoldable pub make : ℕ → ℕ → Identifiers → Option Identifiers
unfolding put
make i address p = put i (some address) (make_byte address p)

unfoldable pub reset : ℕ → Identifiers → Option Identifiers
unfolding put
reset i p = put i none p

-- The copy assignment.
unfoldable pub assign : ℕ → ℕ → Identifiers → Option Identifiers
unfolding put
assign i j p = put i (byte_at p.objects j) p

unfoldable pub construct : Identifiers → Identifiers
construct p = record p { objects = p.objects ++ none ∷ [] }

unfoldable pub copy_construct : ℕ → Identifiers → Identifiers
copy_construct j p = record p { objects = p.objects ++ byte_at p.objects j ∷ [] }

unfoldable pub move_construct : ℕ → Identifiers → Option Identifiers
unfolding replace
move_construct j p = taken_from (replace p.objects j none) p

-- The move assignment empties the other object first, so that one to itself changes nothing.
abbrev pub assigned_from : ℕ → Option Replaced → Identifiers → Option Identifiers
assigned_from i none p = none
assigned_from i (some r) p = put i r.old (record p { objects = r.next })

unfoldable pub move_assign : ℕ → ℕ → Identifiers → Option Identifiers
unfolding replace put
move_assign i j p = assigned_from i (replace p.objects j none) p

-- An object whose lifetime has ended keeps its place, and holds nothing.
unfoldable pub destroy : ℕ → Identifiers → Option Identifiers
unfolding put
destroy i p = put i none p

abbrev pub equal_bytes : Option ℕ → Option ℕ → Bool
equal_bytes none none = true
equal_bytes none (some b) = false
equal_bytes (some a) none = false
equal_bytes (some a) (some b) = a == b

-- `operator ==`
unfoldable pub is_equal : ℕ → ℕ → Identifiers → Bool
is_equal i j p = equal_bytes (byte_at p.objects i) (byte_at p.objects j)

-- `operator !=`
unfoldable pub differs : ℕ → ℕ → Identifiers → Bool
unfolding is_equal
differs i j p = not (is_equal i j p)

abbrev pub has_byte : Option ℕ → Bool
has_byte none = false
has_byte (some b) = true

-- `operator bool`
unfoldable pub is_set : ℕ → Identifiers → Bool
is_set i p = has_byte (byte_at p.objects i)

pub data Call : Type 0 where
  constructs : Call
  makes : ℕ → ℕ → Call
  resets : ℕ → Call
  copies : ℕ → Call
  assigns : ℕ → ℕ → Call
  moves : ℕ → Call
  move_assigns : ℕ → ℕ → Call
  destroys : ℕ → Call

unfoldable pub step : Identifiers → Call → Option Identifiers
unfolding make reset construct copy_construct assign move_construct move_assign destroy
step p constructs = some (construct p)
step p (makes i address) = make i address p
step p (resets i) = reset i p
step p (copies j) = some (copy_construct j p)
step p (assigns i j) = assign i j p
step p (moves j) = move_construct j p
step p (move_assigns i j) = move_assign i j p
step p (destroys i) = destroy i p
