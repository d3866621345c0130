-- ===== src/Canonical/Fingerprints.antt =====
-- The hashes of src/canonical_form.ts, over a digest that has no collisions.
use mathlib.Core.List.{Perm}
use coltrane.Base.{
  String, ◌≡◌, refl, sym, ap, ◌∙◌, ◌↔◌, List, [], ◌∷◌, Dict, lookup, keys, Unique, lookup-sort_keys,
  sort_keys_ext, sorted, sorted-perm, insert_sorted, glue, Bool-cases, inl, inr, str_leb,
}
use coltrane.Base.Json.{Items, arr}
use coltrane.Canonical.{
  pairs, definition_hash, run_fingerprint, fingerprint_lines, join, score_lines, unresolved_lines,
}
use coltrane.Canonical.Printing.{stringify}
use coltrane.Canonical.Printing.Injective.{stringify_inj}

pairs_inj : (m n : Dict String) → pairs m ≡ pairs n → m ≡ n
unfolding pairs
pairs_inj [] [] h = refl
pairs_inj [] ((j, w) ∷ n) h = cc
pairs_inj ((k, v) ∷ m) [] h = cc
pairs_inj ((k, v) ∷ m) ((j, w) ∷ n) h = let rest : pairs m ≡ pairs n = cc in cc (pairs_inj m n rest)

arr_inj : {xs ys : Items} → arr xs ≡ arr ys → xs ≡ ys
arr_inj h = cc

module _ (sha256_hex : String → String)
    (no_collision : (s t : String) → sha256_hex s ≡ sha256_hex t → s ≡ t) where
  -- Over a digest without collisions, two definitions have one hash exactly when they have the same
  -- files with the same hashes, in whatever order they are listed; no path is listed twice.
  definition_hash_exact :
      (files others : Dict String)
      → Unique (keys files)
      → Unique (keys others)
      → (definition_hash sha256_hex files ≡ definition_hash sha256_hex others)
        ↔ ((path : String) → lookup path files ≡ lookup path others)
  unfolding definition_hash
  definition_hash_exact files others u v = (
    λ h path.
        sym (lookup-sort_keys path files)
        ∙ (ap (lookup path) (pairs_inj _ _ (arr_inj (stringify_inj _ _ (no_collision _ _ h))))
            ∙ lookup-sort_keys path others),
    λ h. ap (λ m. sha256_hex (stringify (arr (pairs m)))) (sort_keys_ext files others u v h),
  )

-- The line of the unresolved evals, from their sorted list
listed : List String → List String
listed [] = []
listed (x ∷ xs) = glue "unresolved_evals:" (join "," (x ∷ xs)) ∷ []

listed-insert_sorted :
    (x : String) (xs : List String)
    → listed (insert_sorted x xs) ≡ glue "unresolved_evals:" (join "," (insert_sorted x xs)) ∷ []
unfolding listed insert_sorted
listed-insert_sorted x [] = refl
listed-insert_sorted x (y ∷ ys) = elim (Bool-cases (str_leb x y)) [ inl e ↦ rw e | inr e ↦ rw e ]

unresolved_lines-sorted : (xs : List String) → unresolved_lines xs ≡ listed (sorted xs)
unfolding unresolved_lines listed sorted
unresolved_lines-sorted [] = refl
unresolved_lines-sorted (x ∷ xs) = sym (listed-insert_sorted x (sorted xs))

unresolved_lines-perm :
    {xs ys : List String} → Perm xs ys → unresolved_lines xs ≡ unresolved_lines ys
unresolved_lines-perm {xs} {ys} p =
    unresolved_lines-sorted xs ∙ (ap listed (sorted-perm p) ∙ sym (unresolved_lines-sorted ys))

module _ {V : Type 0} (sha256_hex : String → String) (shown : V → String) where
  -- The fingerprint of a run does not depend on the order in which its outputs were sealed, its scores
  -- were recorded or its unresolved evals were met.
  run_fingerprint_order :
      (genome model form : String) (scores others : Dict V)
      (outputs outputs' evals evals' : List String)
      → Unique (keys scores)
      → Unique (keys others)
      → ((k : String) → lookup k scores ≡ lookup k others)
      → Perm outputs outputs'
      → Perm evals evals'
      → run_fingerprint sha256_hex shown (record {
        genome_hash = genome;
        model_version = model;
        form_version = form;
        eval_scores = scores;
        output_hashes = outputs;
        unresolved_evals = evals;
      })
        ≡ run_fingerprint sha256_hex shown (record {
          genome_hash = genome;
          model_version = model;
          form_version = form;
          eval_scores = others;
          output_hashes = outputs';
          unresolved_evals = evals';
        })
  unfolding run_fingerprint fingerprint_lines
  run_fingerprint_order genome model form scores others outputs outputs' evals evals' u v h p q =
      λ i. sha256_hex (
        glue
          (join "\n" (
            glue "genome_hash:" genome
            ∷ glue "model_version:" model
            ∷ glue "canonical_form_version:" form
            ∷ glue "eval_scores:"
                (join "," (score_lines shown (sort_keys_ext scores others u v h i)))
            ∷ glue "output_hashes:" (join "," (sorted-perm p i))
            ∷ unresolved_lines-perm q i))
          "\n")
