-- ===== src/Composition/Ending.antt =====
-- The search for a cycle in src/composition.ts has fuel enough: the grey roles are distinct.
use coltrane.Base.{
  ℕ, zero, suc, ◌≤◌, ◌<◌, String, ◌≡◌, ◌≢◌, refl, sym, ap, ◌∙◌, true, false, not, List, [], ◌∷◌,
  eq_iff, eq_refl, arith, includes, keep, length, Dict, lookup, keys, Bool-cases, Option-cases, inl,
  inr, true-false, includes-keys, subst,
}
use coltrane.Composition.Graph.{
  dependencies, Visit, visited, cyclic, exhausted, and_visit, visit_each, dfs, search_all, search,
}
use coltrane.Composition.Order.{
  visit_each-grey, visit_each-black, visit_each-white, search_all-black, search_all-white,
}

-- The roles that are not grey
abbrev fresh : List String → List String → ℕ
fresh grey roles = length (keep (λ r. not (includes r grey)) roles)

fresh-le : (role : String) (grey roles : List String) → fresh (role ∷ grey) roles ≤ fresh grey roles
unfolding keep includes
fresh-le role grey [] = omega arith
fresh-le role grey (r ∷ roles) = ground (arith, fresh-le role grey roles)

-- A role that becomes grey is one fewer.
fresh-lt :
    (role : String) (grey roles : List String)
    → includes role grey ≡ false
    → includes role roles ≡ true
    → fresh (role ∷ grey) roles < fresh grey roles
unfolding keep includes
fresh-lt role grey [] h i = cc
fresh-lt role grey (r ∷ roles) h i = ground (
  arith,
  fresh-le role grey roles,
  fresh-lt role grey roles h,
  eq_iff r role,
  eq_refl role,
  h,
  ap (λ x. includes x grey),
)

abbrev IsDone : Visit → Type 0
IsDone (visited black) = Unit
IsDone (cyclic role dep) = Unit
IsDone exhausted = ⊥

and_visit-IsDone :
    (m : Visit) (f : List String → Visit)
    → IsDone m
    → ((b : List String) → IsDone (f b))
    → IsDone (and_visit m f)
unfolding and_visit
and_visit-IsDone (visited a) f h k = k a
and_visit-IsDone (cyclic r d) f h k = tt
and_visit-IsDone exhausted f h k = h

visit_each-IsDone :
    (visit : List String → String → Visit) (role : String) (grey : List String)
    → ((black : List String) (dep : String) → includes dep grey ≡ false → IsDone (visit black dep))
    → (black deps : List String) → IsDone (visit_each visit role grey black deps)
unfolding visit_each
visit_each-IsDone visit role grey ih black [] = tt
visit_each-IsDone visit role grey ih black (dep ∷ deps) = elim (Bool-cases (includes dep grey)) [
  | inl g ↦ subst IsDone (sym (visit_each-grey visit role grey black dep deps g)) tt
  | inr g ↦ elim (Bool-cases (includes dep black)) [
    | inl b ↦
        subst IsDone (sym (visit_each-black visit role grey black dep deps g b))
          (visit_each-IsDone visit role grey ih black deps)
    | inr b ↦ subst IsDone (sym (visit_each-white visit role grey black dep deps g b)) (
        and_visit-IsDone _ _ (ih black dep g)
          (λ black'. visit_each-IsDone visit role grey ih black' deps))
  ]
]

module _ (adj : Dict (List String)) where
  pub no_dependencies :
      (role : String) → includes role (keys adj) ≡ false → dependencies adj role ≡ []
  unfolding dependencies
  no_dependencies role h = elim (Option-cases (lookup role adj)) [
    | inl e ↦ rw e
    | inr (v, e) ↦ true-false (sym (includes-keys role adj v e) ∙ h)
  ]

  visit_none :
      (fuel : ℕ) (grey black : List String) (role : String)
      → IsDone (visit_each (λ b d. dfs adj fuel (role ∷ grey) b d) role (role ∷ grey) black [])
  unfolding visit_each
  visit_none fuel grey black role = tt

  dfs-IsDone :
      (fuel : ℕ) (grey black : List String) (role : String)
      → fresh grey (keys adj) < fuel
      → includes role grey ≡ false
      → IsDone (dfs adj fuel grey black role)
  unfolding dfs
  dfs-IsDone zero grey black role m g = elim m [ ]
  dfs-IsDone (suc fuel) grey black role m g = elim (Bool-cases (includes role (keys adj))) [
    | inl known ↦
        and_visit-IsDone _ _
          (visit_each-IsDone (λ b d. dfs adj fuel (role ∷ grey) b d) role (role ∷ grey)
            (λ b d h.
              dfs-IsDone fuel (role ∷ grey) b d
                (omega (arith, m, fresh-lt role grey (keys adj) g known)) h)
            black (dependencies adj role))
          (λ b. tt)
    | inr unknown ↦
        and_visit-IsDone _ _
          (subst
            (λ deps.
              IsDone
                (visit_each (λ b d. dfs adj fuel (role ∷ grey) b d) role (role ∷ grey) black deps))
            (sym (no_dependencies role unknown)) (visit_none fuel grey black role))
          (λ b. tt)
  ]

  fresh_start : (roles : List String) → fresh [] roles < suc (length roles)
  unfolding keep includes
  fresh_start [] = omega arith
  fresh_start (r ∷ roles) = ground (arith, fresh_start roles)

  search_all-IsDone :
      (black roles : List String) → IsDone (search_all adj (suc (length (keys adj))) black roles)
  unfolding search_all includes
  search_all-IsDone black [] = tt
  search_all-IsDone black (role ∷ roles) = elim (Bool-cases (includes role black)) [
    | inl b ↦
        subst IsDone (sym (search_all-black adj (suc (length (keys adj))) black role roles b))
          (search_all-IsDone black roles)
    | inr b ↦
        subst IsDone (sym (search_all-white adj (suc (length (keys adj))) black role roles b)) (
          and_visit-IsDone _ _
            (dfs-IsDone (suc (length (keys adj))) [] black role (fresh_start (keys adj)) refl)
            (λ black'. search_all-IsDone black' roles))
  ]

  -- The search for a cycle never runs out of its fuel, which is one more than the number of roles: whatever
  -- the roles depend on, it ends with an order or with a cycle.
  pub search_ends : search adj ≢ exhausted
  unfolding search
  search_ends h = subst IsDone h (search_all-IsDone [] (keys adj))
