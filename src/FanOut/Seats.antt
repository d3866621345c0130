-- ===== src/FanOut/Seats.antt =====
-- The seats of an expanded chair in src/fan_out.ts.
use text.Mathlib.TextLemmas.{append_cancel_left}
use coltrane.Base.{
  ℕ, suc, String, ◌≡◌, refl, sym, ap, ◌∙◌, ◌≢◌, Bool, true, false, none, some, List, [], ◌∷◌, map,
  ◌==◌, eq_iff, arith, includes, Unique, length, glue, All, none-some, Bool-cases, inl, inr,
  true-false, head_included, tail_included, subst,
}
use coltrane.Base.Json.{Json, Fields}
use coltrane.FanOut.Records.{Over, FanOut, Chair, OutputRecord}
use coltrane.FanOut.Sources.{done, Source, Sourced, items_with_source, keys_from, first_repeat}
use coltrane.FanOut.Slices.{Joined, FanOutInstance, instance_of}
use coltrane.FanOut.Expansion.{over_sources, FanOutExpansion, instances_of, expand_fan_out}
use coltrane.FanOut.Stages.{then_split-done, done-eq_done, expand_fan_out-Stages}

-- No key repeats exactly when the keys are distinct.
first_repeat-Unique :
    (seen ks : List String)
    → first_repeat seen ks ≡ none
    → Unique ks × ((s : String) → includes s seen ≡ true → includes s ks ≡ false)
unfolding first_repeat Unique includes
first_repeat-Unique seen [] h = (tt, λ s i. refl)
first_repeat-Unique seen (k ∷ ks) h = elim (Bool-cases (includes k seen)) [
  | inl e ↦ none-some (sym (rw e at h))
  | inr e ↦
      let (unique, apart) = first_repeat-Unique (k ∷ seen) ks (rw e at h) in
      (
        (apart k (head_included k seen), unique),
        λ s i. elim (Bool-cases (k == s)) [
          | inl same ↦
              true-false (sym i ∙ (ap (λ t. includes t seen) (sym ((eq_iff k s).0 same)) ∙ e))
          | inr other ↦ rw other (apart s (tail_included s k seen i))
        ],
      )
]

-- The chair that an instance seats
abbrev pub seat : Chair → String → Chair
seat chair value = record chair { role = glue chair.role (glue "#" value); fan_out = none }

-- How an instance stands to its template
abbrev pub IsSeatOf : Chair → Over → FanOutInstance → Type 0
IsSeatOf chair over i = (i.chair ≡ seat chair i.value) × (i.of ≡ chair.role) × (i.key ≡ over.key)

module _ (sha256_hex : String → String) (chair : Chair) (over : Over) (joins : List Joined) where
  instance_of-IsSeatOf :
      (from : Sourced) (key : String) (i : FanOutInstance)
      → instance_of sha256_hex chair over joins from key ≡ done i
      → IsSeatOf chair over i × (i.value ≡ key)
  unfolding instance_of
  instance_of-IsSeatOf from key i h =
      let (view, _, h1) = then_split-done _ _ h in
      let same = done-eq_done h1 in
      (
        (
          ap (λ x. x.chair) (sym same) ∙ ap (λ x. seat chair x.value) same,
          ap (λ x. x.of) (sym same),
          ap (λ x. x.key) (sym same),
        ),
        ap (λ x. x.value) (sym same),
      )

  instances_of-seats :
      (froms : List Sourced) (keys : List String) (is : List FanOutInstance)
      → length froms ≡ length keys
      → instances_of sha256_hex chair over joins froms keys ≡ done is
      → All (IsSeatOf chair over) is × (map (λ i. i.value) is ≡ keys)
  unfolding instances_of
  instances_of-seats [] [] is n h = rw (← done-eq_done h) (tt, refl)
  instances_of-seats [] (k ∷ ks) is n h = absurd (omega (arith, n))
  instances_of-seats (f ∷ fs) [] is n h = absurd (omega (arith, n))
  instances_of-seats (f ∷ fs) (k ∷ ks) is n h =
      let (i, one, h1) = then_split-done _ _ h in
      let (rest, others, h2) = then_split-done _ _ h1 in
      let (first, value) = instance_of-IsSeatOf f k i one in
      let (more, values) = instances_of-seats fs ks rest (omega (arith, n)) others in
      rw (← done-eq_done h2) ((first, more), λ n. value n ∷ values n)

pub length-map {ℓ κ} :
    {A : Type ℓ} {B : Type κ} (f : A → B) (xs : List A) → length (map f xs) ≡ length xs
length-map f [] = refl
length-map f (x ∷ xs) = ap suc (length-map f xs)

keys_from-length :
    (key : String) (i : ℕ) (vs : List Json) (ks : List String)
    → keys_from key i vs ≡ done ks
    → length vs ≡ length ks
unfolding keys_from
keys_from-length key i [] ks h = ap length (done-eq_done h)
keys_from-length key i (v ∷ vs) ks h =
    let (k, one, h1) = then_split-done _ _ h in
    let (rest, others, h2) = then_split-done _ _ h1 in
    ap suc (keys_from-length key (suc i) vs rest others) ∙ ap length (done-eq_done h2)

-- The role of the seat for a key
abbrev seat_role : String → String → String
seat_role role value = glue role (glue "#" value)

seat_role_inj : (role v w : String) → seat_role role v ≡ seat_role role w → v ≡ w
seat_role_inj role v w h =
    append_cancel_left "#" v w (append_cancel_left role (glue "#" v) (glue "#" w) h)

seat_role_fresh :
    (role v : String) (vs : List String)
    → includes v vs ≡ false
    → includes (seat_role role v) (map (seat_role role) vs) ≡ false
unfolding includes
seat_role_fresh role v [] h = refl
seat_role_fresh role v (w ∷ vs) h = elim (Bool-cases (seat_role role w == seat_role role v)) [
  | inl e ↦
      true-false
        (sym ((eq_iff w v).1 (seat_role_inj role w v ((eq_iff _ _).0 e))) ∙ ground (arith, h))
  | inr e ↦ rw e (seat_role_fresh role v vs (ground (arith, h)))
]

seat_roles-Unique :
    (role : String) (vs : List String) → Unique vs → Unique (map (seat_role role) vs)
unfolding Unique
seat_roles-Unique role [] u = tt
seat_roles-Unique role (v ∷ vs) (n, u) = (seat_role_fresh role v vs n, seat_roles-Unique role vs u)

seats-roles :
    (chair : Chair) (over : Over) (is : List FanOutInstance)
    → All (IsSeatOf chair over) is
    → map (λ i. i.chair.role) is ≡ map (seat_role chair.role) (map (λ i. i.value) is)
seats-roles chair over [] h = refl
seats-roles chair over (i ∷ is) (h, hs) =
    let first = ap (λ c. c.role) h.0 in
    let rest = seats-roles chair over is hs in λ n. first n ∷ rest n

module _ (sha256_hex : String → String) (satisfies : OutputRecord → String → Bool) (chair : Chair)
    (fan : FanOut) (records : List OutputRecord) (gig_input : Fields) (e : FanOutExpansion) where
  -- When a chair that fans out is expanded, there is one seat for each item of the split set, in the order
  -- of the items and stamped with the item's key. At least one item was found, every seat is the
  -- template chair under the role `<role>#<key>` without its fan-out, and no two seats share a role.
  pub expand_fan_out_seats :
      chair.fan_out ≡ some fan
      → expand_fan_out sha256_hex satisfies chair records gig_input ≡ done e
      → (sources : List Source) × (froms : List Sourced) × (over_sources satisfies fan.over records
            gig_input
          ≡ done sources)
        × (items_with_source fan.over.kind fan.over.path [] sources ≡ done froms)
        × (froms ≢ [])
        × (keys_from fan.over.key 0 (map (λ s. s.item) froms)
            ≡ done (map (λ i. i.value) e.instances))
        × All (IsSeatOf chair fan.over) e.instances
        × Unique (map (λ i. i.chair.role) e.instances)
  expand_fan_out_seats f h =
      let st = expand_fan_out-Stages sha256_hex satisfies chair fan records gig_input e f h in
      let (all_seats, values) =
        instances_of-seats sha256_hex chair fan.over st.joins st.froms st.keys e.instances
          (sym (length-map _ st.froms) ∙ keys_from-length fan.over.key 0 _ st.keys st.named)
          st.seated in
      (
        st.sources,
        st.froms,
        st.found,
        st.gathered,
        st.some_item,
        st.named ∙ ap done (sym values),
        all_seats,
        subst Unique (sym (seats-roles chair fan.over e.instances all_seats)) (
            seat_roles-Unique chair.role _
              (subst Unique (sym values) (first_repeat-Unique [] st.keys st.no_repeat).0)),
      )
