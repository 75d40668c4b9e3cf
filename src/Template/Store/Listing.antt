-- ===== src/Template/Store/Listing.antt =====
-- internal/template/store.go, List: the templates by creation and, among equals, by identifier.
use Prim.Native.Nat.{Ordering}
use Prim.Native.String.{compare}
use edvabe.Prelude.{Bool, true, false, ◌&&◌, if◌then◌else◌, List, [], ◌∷◌}
use edvabe.Prelude.Int.{leb_ℤ, ltb_ℤ}
use edvabe.Prelude.Dict.{Dict}
use edvabe.Template.{Template}
use edvabe.Template.Store.{Store}

unfoldable pub stands_before : Template → Template → Bool
stands_before a b =
    let same = leb_ℤ a.created_at b.created_at && leb_ℤ b.created_at a.created_at in
    if same
    then elim (compare a.id b.id) [ Ordering.lt ↦ true | _ ↦ false ]
    else ltb_ℤ a.created_at b.created_at

unfoldable pub insert_ordered : Template → List Template → List Template
insert_ordered t [] = t ∷ []
insert_ordered t (u ∷ us) =
    let later = insert_ordered t us in if stands_before u t then u ∷ later else t ∷ u ∷ us

unfoldable pub ordered : Dict Template → List Template
ordered [] = []
ordered ((id, t) ∷ rest) = insert_ordered t (ordered rest)

unfoldable pub list_of : Store → List Template
list_of s = ordered s.templates
