-- ===== src/Catalog/Document/Children.antt =====
-- The children that `catalog` of utils/test_catalog.py writes under a group.
use xemu_perf_tests.Base.{
  false, ℕ, zero, suc, length, String, ◌<>◌, str_eq, str_eq_self, List, [], ◌∷◌, if◌then◌else◌, ◌≡◌,
  refl, ap, ◌∙◌,
}
use xemu_perf_tests.Base.Groups.{under, lookup-group_by}
use xemu_perf_tests.Catalog.Entry.{Entry, staged, stage_leaves}
use xemu_perf_tests.Catalog.Document.{children_of, child_ids}

-- The identifiers of the entries that name a parent, in the order of the entries.
abbrev pub named_under : String → List Entry → List String
named_under parent [] = []
named_under parent (x ∷ xs) =
    let rest = named_under parent xs in if str_eq x.parent_id parent then x.id ∷ rest else rest

under-named_under :
    (parent : String) (xs : List Entry)
    → under (λ x. x.parent_id) (λ x. x.id) parent xs ≡ named_under parent xs
under-named_under parent [] = refl
under-named_under parent (x ∷ xs) = rw (under-named_under parent xs) refl

-- For any entries, the child identifiers written under a group are those of the entries that name it as their parent, each once and in the order of the entries.
pub child_ids-named_under :
    (items : List Entry) (id : String) → child_ids (children_of items) id ≡ named_under id items
unfolding child_ids children_of
child_ids-named_under items id =
    rw (lookup-group_by (λ x. x.parent_id) (λ x. x.id) id items []) (under-named_under id items)

-- The identifiers of the leaves that `staged` appends.
abbrev pub stage_ids : String → List (String × String) → List String
stage_ids parent [] = []
stage_ids parent ((stable, legacy) ∷ stages) = (parent <> ("." <> stable)) ∷ stage_ids parent stages

abbrev pub bits : List Entry → List ℕ
bits [] = []
bits (x ∷ xs) = x.selection_bit ∷ bits xs

-- `n` numbers from `start` on.
abbrev pub count_from : ℕ → ℕ → List ℕ
count_from start zero = []
count_from start (suc n) = start ∷ count_from (suc start) n

named_under-stage_leaves :
    (parent legacy sel : String) (tags : List String) (bit : ℕ) (stages : List (String × String))
    → named_under parent (stage_leaves parent legacy sel tags bit stages) ≡ stage_ids parent stages
unfolding stage_leaves
named_under-stage_leaves parent legacy sel tags bit [] = refl
named_under-stage_leaves parent legacy sel tags bit (x ∷ stages) =
    rw (str_eq_self parent, named_under-stage_leaves parent legacy sel tags (suc bit) stages) refl

bits-stage_leaves :
    (parent legacy sel : String) (tags : List String) (bit : ℕ) (stages : List (String × String))
    → bits (stage_leaves parent legacy sel tags bit stages) ≡ count_from bit (length stages)
unfolding stage_leaves
bits-stage_leaves parent legacy sel tags bit [] = refl
bits-stage_leaves parent legacy sel tags bit (x ∷ stages) =
    rw (bits-stage_leaves parent legacy sel tags (suc bit) stages) refl

-- For a parent with a name, what `staged` appends is a group whose children in the document are its stages in order, and the selection bits of the stages are 0, 1, 2 and so on without a gap.
pub staged-children :
    (parent legacy sel : String) (stages : List (String × String)) (tags : List String)
    (description : String)
    → str_eq "" parent ≡ false
    → (child_ids (children_of (staged parent legacy sel stages tags description)) parent
        ≡ stage_ids parent stages)
      × (bits (staged parent legacy sel stages tags description) ≡ 0 ∷ count_from 0 (length stages))
unfolding staged
staged-children parent legacy sel stages tags description h = (
  child_ids-named_under (staged parent legacy sel stages tags description) parent
      ∙ rw h (named_under-stage_leaves parent legacy sel tags 0 stages),
  ap (λ bs. 0 ∷ bs) (bits-stage_leaves parent legacy sel tags 0 stages),
)
