-- ===== src/Composition/Order.antt =====
-- A search of src/composition.ts that ends finds an order of the roles, and it always ends.
use coltrane.Base.{
  ℕ, zero, suc, String, ◌≡◌, refl, sym, ap, ◌∙◌, true, false, List, [], ◌∷◌, ◌==◌, eq_iff, arith,
  includes, length, Dict, keys, Bool-cases, inl, inr, true-false, head_included, tail_included,
  subst,
}
use coltrane.Composition.Graph.{
  dependencies, Visit, visited, cyclic, exhausted, and_visit, visit_each, dfs, search_all, search,
}

and_visit-visited :
    (m : Visit) (f : List String → Visit) {b : List String}
    → and_visit m f ≡ visited b
    → (a : List String) × (m ≡ visited a) × (f a ≡ visited b)
unfolding and_visit
and_visit-visited (visited a) f h = (a, refl, h)
and_visit-visited (cyclic r d) f h = cc
and_visit-visited exhausted f h = cc

visited_inj : {a b : List String} → visited a ≡ visited b → a ≡ b
visited_inj h = cc

clash : {B : Type 0} {r d : String} {b : List String} → cyclic r d ≡ visited b → B
clash h = cc

no_more : {B : Type 0} {b : List String} → exhausted ≡ visited b → B
no_more h = cc

-- Every role of `xs` is one of `ys`.
abbrev pub Within : List String → List String → Type 0
Within xs ys = (r : String) → includes r xs ≡ true → includes r ys ≡ true

Within-cons :
    (x : String) (xs ys : List String) → includes x ys ≡ true → Within xs ys → Within (x ∷ xs) ys
unfolding includes
Within-cons x xs ys h w r i = elim (Bool-cases (x == r)) [
  | inl e ↦ ap (λ t. includes t ys) (sym ((eq_iff x r).0 e)) ∙ h
  | inr e ↦ w r (rw e at i)
]

module _ (visit : List String → String → Visit) (role : String) (grey black : List String)
    (dep : String) (deps : List String) where
  pub visit_each-grey :
      includes dep grey ≡ true → visit_each visit role grey black (dep ∷ deps) ≡ cyclic role dep
  unfolding visit_each
  visit_each-grey g = ground (arith, g)

  pub visit_each-black :
      includes dep grey ≡ false
      → includes dep black ≡ true
      → visit_each visit role grey black (dep ∷ deps) ≡ visit_each visit role grey black deps
  unfolding visit_each
  visit_each-black g b = ground (arith, g, b)

  pub visit_each-white :
      includes dep grey ≡ false
      → includes dep black ≡ false
      → visit_each visit role grey black (dep ∷ deps)
        ≡ and_visit (visit black dep) (λ black'. visit_each visit role grey black' deps)
  unfolding visit_each
  visit_each-white g b = ground (arith, g, b)

module _ (adj : Dict (List String)) (fuel : ℕ) (black : List String) (role : String)
    (roles : List String) where
  pub search_all-black :
      includes role black ≡ true
      → search_all adj fuel black (role ∷ roles) ≡ search_all adj fuel black roles
  unfolding search_all
  search_all-black b = ground (arith, b)

  pub search_all-white :
      includes role black ≡ false
      → search_all adj fuel black (role ∷ roles)
        ≡ and_visit (dfs adj fuel [] black role) (λ black'. search_all adj fuel black' roles)
  unfolding search_all
  search_all-white b = ground (arith, b)

nothing_in : {B : Type 0} (r : String) → includes r [] ≡ true → B
unfolding includes
nothing_in r h = true-false (sym h)

module _ (adj : Dict (List String)) where
  -- Each role stands before the roles that it depends on.
  unfoldable pub IsOrder : List String → Type 0
  IsOrder [] = Unit
  IsOrder (role ∷ rest) = Within (dependencies adj role) rest × IsOrder rest

  -- What a search that ends has made of the black roles
  abbrev Grown : List String → List String → List String → Type 0
  Grown wanted black black' = IsOrder black' × Within black black' × Within wanted black'

  visit_each-Grown :
      (visit : List String → String → Visit)
      → ((black : List String) (dep : String) (black' : List String)
          → IsOrder black
          → visit black dep ≡ visited black'
          → Grown (dep ∷ []) black black')
      → (role : String) (grey black deps black' : List String) → IsOrder black
      → visit_each visit role grey black deps ≡ visited black'
      → Grown deps black black'
  unfolding visit_each includes
  visit_each-Grown visit ih role grey black [] black' o h =
      let same = visited_inj h in
      (subst IsOrder same o, λ r i. ap (includes r) (sym same) ∙ i, λ r i. true-false (sym i))
  visit_each-Grown visit ih role grey black (dep ∷ deps) black' o h =
      elim (Bool-cases (includes dep grey)) [
        | inl g ↦ clash (sym (visit_each-grey visit role grey black dep deps g) ∙ h)
        | inr g ↦ elim (Bool-cases (includes dep black)) [
          | inl b ↦
              let (ordered, kept, got) =
                visit_each-Grown visit ih role grey black deps black' o
                  (sym (visit_each-black visit role grey black dep deps g b) ∙ h) in
              (ordered, kept, Within-cons dep deps black' (kept dep b) got)
          | inr b ↦
              let (mid, seen, rest) =
                and_visit-visited _ _
                  (sym (visit_each-white visit role grey black dep deps g b) ∙ h) in
              let (o1, kept1, got1) = ih black dep mid o seen in
              let (o2, kept2, got2) = visit_each-Grown visit ih role grey mid deps black' o1 rest in
              (
                o2,
                λ r i. kept2 r (kept1 r i),
                Within-cons dep deps black' (kept2 dep (got1 dep (head_included dep []))) got2,
              )
        ]
      ]

  dfs-Grown :
      (fuel : ℕ) (grey black : List String) (role : String) (black' : List String)
      → IsOrder black
      → dfs adj fuel grey black role ≡ visited black'
      → Grown (role ∷ []) black black'
  unfolding dfs IsOrder
  dfs-Grown zero grey black role black' o h = no_more h
  dfs-Grown (suc fuel) grey black role black' o h =
      let (mid, seen, rest) = and_visit-visited _ _ h in
      let (o1, kept, got) =
        visit_each-Grown (λ b d. dfs adj fuel (role ∷ grey) b d)
          (λ b d b' p q. dfs-Grown fuel (role ∷ grey) b d b' p q) role (role ∷ grey) black
          (dependencies adj role) mid o seen in
      let same = visited_inj rest in
      let w : Within black (role ∷ mid) = λ r i. tail_included r role mid (kept r i) in
      let v : Within (role ∷ []) (role ∷ mid) =
        Within-cons role [] (role ∷ mid) (head_included role mid) (λ r i. nothing_in r i) in
      subst (Grown (role ∷ []) black) same ((got, o1), w, v)

  search_all-Grown :
      (fuel : ℕ) (black roles black' : List String)
      → IsOrder black
      → search_all adj fuel black roles ≡ visited black'
      → Grown roles black black'
  unfolding search_all includes
  search_all-Grown fuel black [] black' o h =
      let same = visited_inj h in
      (subst IsOrder same o, λ r i. ap (includes r) (sym same) ∙ i, λ r i. true-false (sym i))
  search_all-Grown fuel black (role ∷ roles) black' o h = elim (Bool-cases (includes role black)) [
    | inl b ↦
        let (ordered, kept, got) =
          search_all-Grown fuel black roles black' o
            (sym (search_all-black adj fuel black role roles b) ∙ h) in
        (ordered, kept, Within-cons role roles black' (kept role b) got)
    | inr b ↦
        let (mid, seen, rest) =
          and_visit-visited _ _ (sym (search_all-white adj fuel black role roles b) ∙ h) in
        let (o1, kept1, got1) = dfs-Grown fuel [] black role mid o seen in
        let (o2, kept2, got2) = search_all-Grown fuel mid roles black' o1 rest in
        (
          o2,
          λ r i. kept2 r (kept1 r i),
          Within-cons role roles black' (kept2 role (got1 role (head_included role []))) got2,
        )
  ]

  -- A search that finds no cycle lists every role that was to be searched, each before all the roles that
  -- it depends on.
  pub search-IsOrder :
      (black : List String) → search adj ≡ visited black → IsOrder black × Within (keys adj) black
  unfolding search IsOrder
  search-IsOrder black h =
      let (o, _, got) = search_all-Grown (suc (length (keys adj))) [] (keys adj) black tt h in
      (o, got)
