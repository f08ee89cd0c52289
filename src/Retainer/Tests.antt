-- ===== src/Retainer/Tests.antt =====
-- rts/RetainerSet.c, rts/RetainerSet.h: a few sets.
use ghc_xapp_fix.Prelude.{◌≡◌, ◌≢◌, ◌≤◌, ◌⊎◌, refl, some, [], ◌∷◌, length, arith, inl}
use ghc_xapp_fix.Retainer.{
  RetainerSet, SetPointer, rs_many, set, AllSets, initialize_all_retainer_set, is_member, find_set,
  singleton, is_singleton, add_element,
}
use ghc_xapp_fix.Retainer.Member.{has, is_member-has}
use ghc_xapp_fix.Retainer.Elements.{insert}
use ghc_xapp_fix.Retainer.Chains.{IsValid}
use ghc_xapp_fix.Retainer.Unique.{
  Has, start-IsValid, singleton-Has, add_element-Adds, add_element-order,
}

-- a set that is searched by halves
abbrev large : RetainerSet
large = record { hash_key = 0; id = 2; element = 1 ∷ 3 ∷ 5 ∷ 7 ∷ 9 ∷ 11 ∷ 13 ∷ 15 ∷ 17 ∷ [] }

is_member-has_example : is_member 6 (set large) ≡ some (has 6 large.element)
is_member-has_example = is_member-has 6 large (omega arith) (omega arith)

abbrev first : SetPointer × AllSets
first = singleton initialize_all_retainer_set 40

abbrev forty : RetainerSet
forty = record { hash_key = 40; id = 2; element = 40 ∷ [] }

first-is_forty : first.0 ≡ set forty
unfolding singleton find_set initialize_all_retainer_set is_singleton
first-is_forty = refl

first-IsValid : IsValid first.1
first-IsValid = (singleton-Has initialize_all_retainer_set 40 start-IsValid).valid

add_element-Adds_example :
    ((length forty.element ≡ 3) × (add_element 3 first.1 16 (set forty) ≡ (rs_many, first.1)))
    ⊎ ((length (insert 16 forty.element) ≤ 3)
        × Has first.1 (insert 16 forty.element) (add_element 3 first.1 16 (set forty)))
unfolding has singleton find_set initialize_all_retainer_set is_singleton
add_element-Adds_example =
    add_element-Adds 3 first.1 16 forty first-IsValid (inl refl) refl (omega arith)

add_element-order_example :
    let a = add_element 3 first.1 16 (set forty) in
    let b = add_element 3 a.1 24 a.0 in
    let c = add_element 3 b.1 24 (set forty) in
    let d = add_element 3 c.1 16 c.0 in (b.0 ≡ d.0) × (b.0 ≢ rs_many)
unfolding has singleton find_set initialize_all_retainer_set is_singleton
add_element-order_example =
    add_element-order 3 first.1 16 24 forty first-IsValid (inl refl) refl refl (omega arith)
      (omega arith)
