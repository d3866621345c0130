-- ===== src/Canonical/Tests.antt =====
-- The canonical form on small values, and the theorems on them.
use coltrane.Base.{String, ◌≡◌, refl, ◌↔◌, some, [], ◌∷◌, Dict, includes, keys, Unique}
use coltrane.Base.Json.{Json, Fields, null, num, str, arr, obj, nil, cons, end, field}
use coltrane.Canonical.{
  canon_json, canon_structural_json, canon_text, OutputContent, output_content_hash, of_type,
  of_agent, dependency_hash,
}
use coltrane.Canonical.Facts.{IsJson, SameFacts}
use coltrane.Canonical.Structure.{canon_json_exact}
use coltrane.Canonical.Contents.{SameOutput, output_content_hash_exact}

-- { "b": [1, "x\ny"], "a": null, "last_seen": 3 }
abbrev sample : Fields
sample =
    field "b" (arr (cons (num 1) (cons (str "x\ny") nil)))
      (field "a" null (field "last_seen" (num 3) end))

canon_json-sample : canon_json (obj sample) ≡ "{\"a\":null,\"b\":[1,\"x\\ny\"]}"
unfolding canon_json includes
canon_json-sample = refl

canon_structural_json-sample : canon_structural_json (obj sample) ≡ "{\"b\":[1,\"x\\ny\"]}"
unfolding canon_structural_json includes
canon_structural_json-sample = refl

canon_json_large : canon_json (num 100204) ≡ "100204"
unfolding canon_json includes
canon_json_large = refl

canon_text_sample : canon_text "a\r\nb\n\n" ≡ "a\nb\n"
unfolding canon_text
canon_text_sample = refl

-- The same with the keys in another order
abbrev reordered : Fields
reordered = field "a" null (field "b" (arr (cons (num 1) (cons (str "x\ny") nil))) end)

sample-IsJson : IsJson (obj sample)
unfolding IsJson Unique keys includes
sample-IsJson = ((refl, (refl, (refl, tt))), ((tt, (tt, tt)), (tt, (tt, tt))))

reordered-IsJson : IsJson (obj reordered)
unfolding IsJson Unique keys includes
reordered-IsJson = ((refl, (refl, tt)), (tt, ((tt, (tt, tt)), tt)))

canon_json_exact_example :
    (canon_json (obj sample) ≡ canon_json (obj reordered)) ↔ SameFacts (obj sample) (obj reordered)
canon_json_exact_example =
    canon_json_exact (obj sample) (obj reordered) sample-IsJson reordered-IsJson

abbrev plain_digest : String → String
plain_digest s = s

abbrev plain_injective : (s t : String) → plain_digest s ≡ plain_digest t → s ≡ t
plain_injective s t h = h

abbrev files : Dict String
files = ("agents/a.json", "1f") ∷ ("skills/b.md", "2e") ∷ []

abbrev files_again : Dict String
files_again = ("skills/b.md", "2e") ∷ ("agents/a.json", "1f") ∷ []

files-Unique : Unique (keys files) × Unique (keys files_again)
unfolding Unique keys includes
files-Unique = ((refl, (refl, tt)), (refl, (refl, tt)))

abbrev signal : Json → OutputContent
signal content = record {
  core_type = "Signal";
  domain_type = "tick";
  domain_type_version = 1;
  domain = "time";
  primitive = "SENSE";
  phase = some "listen";
  agent_slug = "ear";
  content = content;
}

output_content_hash_exact_example :
    (output_content_hash plain_digest (signal (obj sample))
      ≡ output_content_hash plain_digest (signal (obj reordered)))
    ↔ SameOutput (signal (obj sample)) (signal (obj reordered))
output_content_hash_exact_example =
    output_content_hash_exact plain_digest plain_injective (signal (obj sample))
      (signal (obj reordered)) sample-IsJson reordered-IsJson

abbrev scores : Dict String
scores = ("depth", "1") ∷ []

scores-Unique : Unique (keys scores)
unfolding Unique keys includes
scores-Unique = (refl, tt)

-- Dependencies are hashed in the order of their classes and slugs.
dependency_order :
    dependency_hash
      (λ text. text)
      (record { kind = of_type; slug = "b"; effective_hash = "2" }
        ∷ record { kind = of_type; slug = "a"; effective_hash = "1" }
        ∷ record { kind = of_agent; slug = "z"; effective_hash = "3" }
        ∷ [])
    ≡ "[[\"agent\",\"z\",\"3\"],[\"type\",\"a\",\"1\"],[\"type\",\"b\",\"2\"]]"
unfolding dependency_hash
dependency_order = refl
