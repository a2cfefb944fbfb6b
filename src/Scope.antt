-- ===== src/Scope.antt =====
-- The scope chain: packages/harness/scope/src/index.ts. A scope key is its identity, a number; the
-- relation of keys and parents is a list of pairs with one pair for a key. A walk to the root is
-- recursion on `Grounded`, which says that the walk from a key ends.
pub mod Forest
pub mod Tests
use rigo.Base.{
  ℕ, Bool, true, false, List, [], ◌∷◌, Option, some, none, ◌≡◌, nat_eq, if◌then◌else◌, not,
}
use mathlib.Core.Option

abbrev pub Parents : Type 0
Parents = List (ℕ × ℕ)

-- `scopeParents.get`
unfoldable pub scope_parent_of : ℕ → Parents → Option ℕ
scope_parent_of k [] = none
scope_parent_of k ((x, p) ∷ ps) = if nat_eq x k then some p else scope_parent_of k ps

-- `scopeParents.set`
unfoldable pub set_parent : ℕ → ℕ → Parents → Parents
set_parent k p [] = (k, p) ∷ []
set_parent k p ((x, q) ∷ ps) =
    let rest = set_parent k p ps in if nat_eq x k then (x, p) ∷ ps else (x, q) ∷ rest

-- The walk from a key to its root ancestor ends.
pub data Grounded (ps : Parents) : ℕ → Type 0 where
  root : (k : ℕ) → scope_parent_of k ps ≡ none → Grounded ps k
  under : (k p : ℕ) → scope_parent_of k ps ≡ some p → Grounded ps p → Grounded ps k

module _ {ps : Parents} where
  -- Nearest first.
  unfoldable pub scope_chain_of : (k : ℕ) → Grounded ps k → List ℕ
  scope_chain_of _ (root k e) = k ∷ []
  scope_chain_of _ (under k p e g) = k ∷ scope_chain_of p g

  -- Whether the walk from a key meets another, as the cycle check and the event filter walk.
  unfoldable pub meets : ℕ → (k : ℕ) → Grounded ps k → Bool
  meets target _ (root k e) = nat_eq k target
  meets target _ (under k p e g) =
      let rest = meets target p g in if nat_eq k target then true else rest

pub data Linked : Type 0 where
  linked : Parents → Linked
  cycle : Linked
  already_bound : Linked

unfoldable pub link_scope_parent : (key parent : ℕ) (ps : Parents) → Grounded ps parent → Linked
unfolding meets set_parent
link_scope_parent key parent ps g =
    if meets key parent g then cycle else linked (set_parent key parent ps)

-- `rebind` of the binding that this returns is `link_scope_parent`.
unfoldable pub bind_scope_parent : (key parent : ℕ) (ps : Parents) → Grounded ps parent → Linked
unfolding link_scope_parent scope_parent_of
bind_scope_parent key parent ps g = elim (scope_parent_of key ps) [
  | some p ↦ already_bound
  | none ↦ link_scope_parent key parent ps g
]

-- The filter of `scopeTarget`: the base filter's answer, the listener's tag, the routed key.
unfoldable pub admits : {ps : Parents} → Bool → Option ℕ → (k : ℕ) → Grounded ps k → Bool
unfolding meets
admits base none k g = base
admits base (some tag) k g = if base then meets tag k g else false

-- Without a routed key only untagged listeners are admitted.
abbrev pub admits_unkeyed : Bool → Option ℕ → Bool
admits_unkeyed base none = base
admits_unkeyed base (some tag) = false
