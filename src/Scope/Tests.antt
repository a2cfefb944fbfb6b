-- ===== src/Scope/Tests.antt =====
-- A scope of three keys, and instances of the theorems.
use rigo.Base.{true, [], ◌∷◌, some, ◌≡◌, refl}
use rigo.Scope.{Grounded, root, under, scope_parent_of, link_scope_parent, linked, cycle, admits}
use rigo.Scope.Forest.{IsForest, link_scope_parent-IsForest, link_scope_parent-admits}

-- Before any link every key is a root.
no_links : IsForest []
unfolding scope_parent_of
no_links k = root k refl

one_link : link_scope_parent 2 1 [] (no_links 1) ≡ linked ((2, 1) ∷ [])
unfolding link_scope_parent no_links
one_link = refl

link_scope_parent-IsForest_example : IsForest ((2, 1) ∷ [])
link_scope_parent-IsForest_example =
    link_scope_parent-IsForest 2 1 [] ((2, 1) ∷ []) no_links one_link

above : Grounded ((2, 1) ∷ []) 2
unfolding scope_parent_of
above = under 2 1 refl (root 1 refl)

-- A listener of the parent hears the child; the child cannot become its parent's parent.
link_scope_parent-admits_example :
    admits true (some 1) 2 above ≡ admits true (some 1) 1 (no_links 1)
link_scope_parent-admits_example =
    link_scope_parent-admits 2 1 [] ((2, 1) ∷ []) no_links above true 1 one_link

no_cycle : link_scope_parent 1 2 ((2, 1) ∷ []) above ≡ cycle
unfolding link_scope_parent above
no_cycle = refl
