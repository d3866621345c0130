-- ===== src/FanOut/Stages.antt =====
-- The steps of `expandFanOut` in src/fan_out.ts that an expansion went through.
use coltrane.Base.{
  String, ◌≡◌, refl, sym, ap, ◌∙◌, ◌≢◌, Bool, Option, none, some, List, [], ◌∷◌, map, cons-nil,
}
use coltrane.Base.Json.{Fields}
use coltrane.FanOut.Records.{Over, FanOut, Chair, OutputRecord}
use coltrane.FanOut.Sources.{
  Split, done, refused, then_split, Source, Sourced, items_with_source, keys_from, first_repeat,
  split_each,
}
use coltrane.FanOut.Slices.{Joined}
use coltrane.FanOut.Expansion.{
  over_sources, join_set, FanOutExpansion, items_or_refusal, keys_or_refusal, instances_of,
  split_chair, expand_fan_out, expand_by, unmatched_of,
}

pub then_split-done {ℓ κ} :
    {A : Type ℓ} {B : Type κ} (m : Split A) (f : A → Split B) {b : B}
    → then_split m f ≡ done b
    → (a : A) × (m ≡ done a) × (f a ≡ done b)
unfolding then_split
then_split-done (done a) f h = (a, refl, h)
then_split-done (refused e) f h = cc

pub done-eq_done {ℓ} : {A : Type ℓ} {a b : A} → done a ≡ done b → a ≡ b
done-eq_done h = cc

-- What an expansion that succeeds went through
pub record Stages (sha256_hex : String → String) (satisfies : OutputRecord → String → Bool)
    (chair : Chair) (fan : FanOut) (records : List OutputRecord) (gig_input : Fields)
    (e : FanOutExpansion) : Type 0 where
  pub sources : List Source
  pub froms : List Sourced
  pub keys : List String
  pub joins : List Joined
  pub found : over_sources satisfies fan.over records gig_input ≡ done sources
  pub gathered : items_with_source fan.over.kind fan.over.path [] sources ≡ done froms
  pub some_item : froms ≢ []
  pub named : keys_from fan.over.key 0 (map (λ s. s.item) froms) ≡ done keys
  pub no_repeat : first_repeat [] keys ≡ none
  pub joined : split_each (join_set satisfies records gig_input) fan.join ≡ done joins
  pub seated : instances_of sha256_hex chair fan.over joins froms keys ≡ done e.instances
  pub left : unmatched_of chair.role (map (λ s. s.item) froms) joins ≡ e.unmatched

nonempty : {s : Sourced} {ss froms : List Sourced} → s ∷ ss ≡ froms → froms ≢ []
nonempty h e = cons-nil (h ∙ e)

items_or_refusal-done :
    (over : Over) (found : List Sourced) {froms : List Sourced}
    → items_or_refusal over found ≡ done froms
    → (found ≡ froms) × (froms ≢ [])
items_or_refusal-done over [] h = cc
items_or_refusal-done over (s ∷ ss) h = (done-eq_done h, nonempty (done-eq_done h))

keys_or_refusal-done :
    (named : List String) (o : Option String) {keys : List String}
    → keys_or_refusal named o ≡ done keys
    → (o ≡ none) × (named ≡ keys)
keys_or_refusal-done named none h = (refl, done-eq_done h)
keys_or_refusal-done named (some k) h = cc

module _ (sha256_hex : String → String) (satisfies : OutputRecord → String → Bool) (chair : Chair)
    (fan : FanOut) (records : List OutputRecord) (gig_input : Fields) (e : FanOutExpansion) where
  split_chair-Stages :
      split_chair sha256_hex satisfies chair fan records gig_input ≡ done e
      → Stages sha256_hex satisfies chair fan records gig_input e
  unfolding split_chair
  split_chair-Stages h =
      let (sources, found, h1) = then_split-done _ _ h in
      let (gathered, is_gathered, h2) = then_split-done _ _ h1 in
      let (froms, items, h3) = then_split-done _ _ h2 in
      let (named, is_named, h4) = then_split-done _ _ h3 in
      let (keys, unrepeated, h5) = then_split-done _ _ h4 in
      let (joins, is_joined, h6) = then_split-done _ _ h5 in
      let (instances, is_seated, h7) = then_split-done _ _ h6 in
      let (same, some_item) = items_or_refusal-done fan.over gathered items in
      let (no_repeat, same_keys) = keys_or_refusal-done named (first_repeat [] named) unrepeated in
      let result : record {
        instances = instances;
        unmatched = unmatched_of chair.role (map (λ s. s.item) froms) joins;
      }
          ≡ e =
        done-eq_done h7 in
      record {
        sources = sources;
        froms = froms;
        keys = keys;
        joins = joins;
        found = found;
        gathered = is_gathered ∙ ap done same;
        some_item = some_item;
        named = is_named ∙ ap done same_keys;
        no_repeat = ap (first_repeat []) (sym same_keys) ∙ no_repeat;
        joined = is_joined;
        seated = is_seated ∙ ap (λ x. done x.instances) result;
        left = ap (λ x. x.unmatched) result;
      }

module _ (sha256_hex : String → String) (satisfies : OutputRecord → String → Bool) (chair : Chair)
    (fan : FanOut) (records : List OutputRecord) (gig_input : Fields) (e : FanOutExpansion) where
  pub expand_fan_out-Stages :
      chair.fan_out ≡ some fan
      → expand_fan_out sha256_hex satisfies chair records gig_input ≡ done e
      → Stages sha256_hex satisfies chair fan records gig_input e
  unfolding expand_fan_out expand_by
  expand_fan_out-Stages f h =
      split_chair-Stages sha256_hex satisfies chair fan records gig_input e
        (sym (ap (λ o. expand_by sha256_hex satisfies o chair records gig_input) f) ∙ h)
