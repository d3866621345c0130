-- ===== src/Canonical/Contents.antt =====
-- The content hash of an output in src/canonical_form.ts, over a digest that has no collisions.
use coltrane.Base.{
  ℕ, String, ◌≡◌, refl, sym, ap, ◌∙◌, ◌↔◌, false, Option, none, some, ◌==◌, none-some, some-eq_some,
  lookup, keys, Unique, includes,
}
use coltrane.Base.Json.{Fields, num, str, obj, end, field, entries}
use coltrane.Canonical.{
  OutputContent, phase_field, content_fields, content_members, is_excluded, output_content_hash,
  canon_json, strip_and_sort_keys, strip_fields,
}
use coltrane.Canonical.Facts.{IsJson, HaveJson, SameFacts, kept}
use coltrane.Canonical.Forms.{strip_and_sort_keys_exact, equal_lookups}
use coltrane.Canonical.Structure.{obj_inj}
use coltrane.Canonical.Printing.{stringify}
use coltrane.Canonical.Printing.Injective.{stringify_inj}

-- Two records state the same to the hash of an output: the same type, phase, primitive and agent, and
-- data that state the same.
abbrev pub SameOutput : OutputContent → OutputContent → Type 0
SameOutput r s =
    (r.core_type ≡ s.core_type)
    × (r.domain_type ≡ s.domain_type)
    × (r.domain_type_version ≡ s.domain_type_version)
    × (r.domain ≡ s.domain)
    × (r.primitive ≡ s.primitive)
    × (r.phase ≡ s.phase)
    × (r.agent_slug ≡ s.agent_slug)
    × SameFacts r.content s.content

content_members-IsJson :
    (p : Option String) (r : OutputContent) → IsJson r.content → IsJson (obj (content_members p r))
unfolding IsJson HaveJson content_members phase_field Unique keys includes
content_members-IsJson none r h = (
  (refl, (refl, (refl, (refl, (refl, (refl, (refl, tt))))))),
  (tt, (tt, (tt, (tt, (tt, (tt, (h, tt))))))),
)
content_members-IsJson (some p) r h = (
  (refl, (refl, (refl, (refl, (refl, (refl, (refl, (refl, tt)))))))),
  (tt, (tt, (tt, (tt, (tt, (tt, (tt, (h, tt)))))))),
)

same_members :
    (p q : Option String) (r s : OutputContent)
    → strip_and_sort_keys (obj (content_members p r))
      ≡ strip_and_sort_keys (obj (content_members q s))
    → (k : String)
    → kept (is_excluded k) (lookup k (entries (content_members p r)))
      ≡ kept (is_excluded k) (lookup k (entries (content_members q s)))
unfolding strip_and_sort_keys
same_members p q r s h = equal_lookups (content_members p r) (content_members q s) (obj_inj h)

str_inj : {s t : String} → str s ≡ str t → s ≡ t
str_inj h = cc

num_inj : {m n : ℕ} → num m ≡ num n → m ≡ n
num_inj h = cc

-- What two records state, their phases given beside them
abbrev SameMembers : Option String → Option String → OutputContent → OutputContent → Type 0
SameMembers p q r s =
    (r.core_type ≡ s.core_type)
    × (r.domain_type ≡ s.domain_type)
    × (r.domain_type_version ≡ s.domain_type_version)
    × (r.domain ≡ s.domain)
    × (r.primitive ≡ s.primitive)
    × (p ≡ q)
    × (r.agent_slug ≡ s.agent_slug)
    × (strip_and_sort_keys r.content ≡ strip_and_sort_keys s.content)

phases_agree :
    (p q : Option String) (r s : OutputContent)
    → strip_and_sort_keys (obj (content_members p r))
      ≡ strip_and_sort_keys (obj (content_members q s))
    → p ≡ q
unfolding content_members phase_field lookup is_excluded strip_and_sort_keys includes
phases_agree none none r s h = refl
phases_agree none (some q) r s h = none-some (same_members none (some q) r s h "phase")
phases_agree (some p) none r s h = none-some (sym (same_members (some p) none r s h "phase"))
phases_agree (some p) (some q) r s h =
    ap some (str_inj (some-eq_some (same_members (some p) (some q) r s h "phase")))

past_phase :
    (k : String) (p : Option String) (fs : Fields)
    → ("phase" == k) ≡ false
    → lookup k (entries (phase_field p fs)) ≡ lookup k (entries fs)
unfolding phase_field lookup
past_phase k none fs e = refl
past_phase k (some p) fs e = rw e

-- What stands after the phase agrees too.
agree_past_phase :
    (p q : Option String) (r s : OutputContent)
    → strip_and_sort_keys (obj (content_members p r))
      ≡ strip_and_sort_keys (obj (content_members q s))
    → (r.agent_slug ≡ s.agent_slug)
      × (strip_and_sort_keys r.content ≡ strip_and_sort_keys s.content)
unfolding content_members lookup is_excluded strip_and_sort_keys includes
agree_past_phase p q r s h =
    let same = same_members p q r s h in
    let slugs : kept false (some (str r.agent_slug)) ≡ kept false (some (str s.agent_slug)) =
      sym (ap (kept false) (past_phase "agent_slug" p _ refl))
      ∙ (same "agent_slug" ∙ ap (kept false) (past_phase "agent_slug" q _ refl)) in
    let contents : kept false (some r.content) ≡ kept false (some s.content) =
      sym (ap (kept false) (past_phase "data" p _ refl))
      ∙ (same "data" ∙ ap (kept false) (past_phase "data" q _ refl)) in
    (str_inj (some-eq_some slugs), some-eq_some contents)

members_agree :
    (p q : Option String) (r s : OutputContent)
    → strip_and_sort_keys (obj (content_members p r))
      ≡ strip_and_sort_keys (obj (content_members q s))
    → SameMembers p q r s
unfolding content_members phase_field lookup is_excluded strip_and_sort_keys includes
members_agree p q r s h =
    let same = same_members p q r s h in
    (
      str_inj (some-eq_some (same "core_type")),
      str_inj (some-eq_some (same "domain_type")),
      num_inj (some-eq_some (same "domain_type_version")),
      str_inj (some-eq_some (same "domain")),
      str_inj (some-eq_some (same "primitive")),
      phases_agree p q r s h,
      (agree_past_phase p q r s h).0,
      (agree_past_phase p q r s h).1,
    )

members_same :
    (p q : Option String) (r s : OutputContent)
    → SameMembers p q r s
    → strip_and_sort_keys (obj (content_members p r))
      ≡ strip_and_sort_keys (obj (content_members q s))
unfolding content_members phase_field is_excluded strip_and_sort_keys strip_fields includes
members_same none none r s e = λ i. obj (
    field "agent_slug" (str (e.6 i)) (
      field "core_type" (str (e.0 i)) (
        field "data" (e.7 i) (
          field "domain" (str (e.3 i)) (
            field "domain_type" (str (e.1 i))
              (field "domain_type_version" (num (e.2 i)) (field "primitive" (str (e.4 i)) end)))))))
members_same none (some q) r s e = none-some e.5
members_same (some p) none r s e = none-some (sym e.5)
members_same (some p) (some q) r s e =
    let same = some-eq_some e.5 in
    λ i. obj (
      field "agent_slug" (str (e.6 i)) (
        field "core_type" (str (e.0 i)) (
          field "data" (e.7 i) (
            field "domain" (str (e.3 i)) (
              field "domain_type" (str (e.1 i)) (
                field "domain_type_version" (num (e.2 i))
                  (field "phase" (str (same i)) (field "primitive" (str (e.4 i)) end))))))))

module _ (sha256_hex : String → String)
    (no_collision : (s t : String) → sha256_hex s ≡ sha256_hex t → s ≡ t) where
  -- Over a digest without collisions, two outputs have one content hash exactly when they agree in
  -- type, version, domain, primitive, phase and agent, and their data state the same: the order of
  -- keys and the excluded keys do not count, everything else does.
  pub output_content_hash_exact :
      (r s : OutputContent)
      → IsJson r.content
      → IsJson s.content
      → (output_content_hash sha256_hex r ≡ output_content_hash sha256_hex s) ↔ SameOutput r s
  unfolding output_content_hash content_fields canon_json
  output_content_hash_exact r s i j = (
    λ h.
        let same = members_agree r.phase s.phase r s (stringify_inj _ _ (no_collision _ _ h)) in
        (
          same.0,
          same.1,
          same.2,
          same.3,
          same.4,
          same.5,
          same.6,
          (strip_and_sort_keys_exact r.content s.content i j).0 same.7,
        ),
    λ e.
        let contents = (strip_and_sort_keys_exact r.content s.content i j).1 e.7 in
        ap (λ v. sha256_hex (stringify v))
          (members_same r.phase s.phase r s (e.0, e.1, e.2, e.3, e.4, e.5, e.6, contents)),
  )
