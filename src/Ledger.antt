-- ===== src/Ledger.antt =====
-- src/ledger.ts: the append-only ledger. An entry is a JSON object; what `String(v)` makes of a value that is
-- not a text is an argument.
mod Split
mod File
mod Written
mod Damage
mod Tests
use Prim.Native.Char.{code}
use coltrane.Base.{
  ℕ, suc, ◌+◌, String, Bool, true, false, not, ◌&&◌, ◌||◌, Option, none, some, List, [], ◌∷◌, ◌++◌,
  ◌==◌, ◌⊎◌, inl, inr, str_leb, Dict, lookup, keep, includes, length, leb, eqb, all, if◌then◌else◌,
}
use coltrane.Base.Json.{Json, Fields, bool, num, str, arr, entries}

-- `row[field]`
abbrev pub at : String → Fields → Option Json
at k row = lookup k (entries row)

abbrev pub text_or_empty : Option Json → String
text_or_empty (some (str s)) = s
text_or_empty v = ""

-- What a LedgerError complains of
pub data LedgerError : Type 0 where
  no_kind : LedgerError
  requires requires_hex carries : String → LedgerError

abbrev pub Validity : Type 0
Validity = Option LedgerError

-- The first guard that throws
unfoldable pub first_error : List Validity → Validity
first_error [] = none
first_error (none ∷ checks) = first_error checks
first_error (some e ∷ checks) = some e

-- `isNonEmptyString`, negated
abbrev needs : Fields → String → Validity
needs row k = if text_or_empty (at k row) == "" then some (requires k) else none

abbrev of_type : (Json → Bool) → Fields → String → Validity
of_type test row k = elim (at k row) [
  | none ↦ some (requires k)
  | some v ↦ if test v then none else some (requires k)
]

abbrev is_list : Json → Bool
is_list (arr xs) = true
is_list v = false

abbrev is_number : Json → Bool
is_number (num n) = true
is_number v = false

abbrev is_bool : Json → Bool
is_bool (bool b) = true
is_bool v = false

unfoldable pub is_hex : String → ℕ → Bool
is_hex String.[] n = eqb n 64
is_hex (String.◌∷◌ c s) n =
    let rest = is_hex s (suc n) in
    ((leb 48 (code c) && leb (code c) 57) || (leb 97 (code c) && leb (code c) 102)) && rest

-- `requireHex`
abbrev needs_hex : Fields → String → Validity
needs_hex row k = if is_hex (text_or_empty (at k row)) 0 then none else some (requires_hex k)

abbrev lacks : Fields → String → Validity
lacks row k = elim (at k row) [ none ↦ none | some v ↦ some (carries k) ]

-- `rejectGigIdentity`
abbrev no_gig_identity : Fields → List Validity
no_gig_identity row = lacks row "genome_hash" ∷ lacks row "run_fingerprint" ∷ []

abbrev pub kind_of : Fields → String
kind_of row = text_or_empty (at "kind" row)

unfoldable gig_guards : Fields → List Validity
unfolding is_hex
gig_guards row =
    needs row "gig_id"
    ∷ needs row "standard_slug"
    ∷ needs_hex row "genome_hash"
    ∷ needs_hex row "run_fingerprint"
    ∷ []

unfoldable spend_guards : Fields → List Validity
spend_guards row =
    needs row "gig_id"
    ∷ needs row "role"
    ∷ needs row "agent_slug"
    ∷ needs row "phase"
    ∷ of_type is_number row "round"
    ∷ of_type is_bool row "captured"
    ∷ no_gig_identity row

unfoldable event_guards : Bool → Fields → List Validity
unfolding is_hex
event_guards is_mutation row =
    needs row "event" ∷ needs row "subject_slug" ∷ no_gig_identity row
    ++ (if is_mutation
        then needs_hex row "content_hash" ∷ needs_hex row "effective_hash" ∷ []
        else [])

unfoldable kind_guards : String → Fields → List Validity
unfolding gig_guards spend_guards event_guards
kind_guards kind row =
    if kind == "gig"
    then gig_guards row
    else if kind == "chair_spend"
    then spend_guards row
    else event_guards (kind == "genome_mutation") row

-- `validateEntry`
unfoldable pub validate_entry : Fields → Validity
unfolding kind_guards first_error includes
validate_entry row = first_error (
    (if includes (kind_of row) ("gig" ∷ "genome_mutation" ∷ "governance" ∷ "chair_spend" ∷ [])
      then none
      else some no_kind)
    ∷ needs row "entry_id"
    ∷ needs row "started_at"
    ∷ needs row "finished_at"
    ∷ of_type is_list row "output_hashes"
    ∷ kind_guards (kind_of row) row)

-- A filter; `fields` are its filters on `event`, `gig_id` and the like, which must be equal.
pub record LedgerQuery : Type 0 where
  pub kind : String
  pub fields : Dict String
  pub after : String
  pub before : String

-- A filter that is not given, or empty, lets everything pass.
abbrev pub passes : (String → Bool) → String → Bool
passes test wanted = wanted == "" || test wanted

-- The reason, a text for a person, is left out.
pub record LedgerCorruption : Type 0 where
  pub line_no : ℕ
  pub preview : String

pub record LedgerIntegrityReport : Type 0 where
  pub ok : Bool
  pub path : String
  pub entries : ℕ
  pub corrupt : List LedgerCorruption

-- `interface Ledger`, over the states of a ledger
pub record Ledger (S : Type 0) : Type 0 where
  pub append : Fields → S → LedgerError ⊎ S
  pub query : LedgerQuery → S → List Fields
  pub count : LedgerQuery → S → ℕ
  pub integrity : S → LedgerIntegrityReport

module _ (shown : Option Json → String) where
  -- `String(e.started_at)`
  abbrev pub started : Fields → String
  started row = elim (at "started_at" row) [ some (str s) ↦ s | v ↦ shown v ]

  unfoldable pub matches : LedgerQuery → Fields → Bool
  unfolding all
  matches q row =
      passes (λ wanted. kind_of row == wanted) q.kind
      && all (λ f. passes (λ wanted. text_or_empty (at f.0 row) == wanted) f.1) q.fields
      && passes (λ wanted. str_leb wanted (started row)) q.after
      && passes (λ wanted. str_leb (started row) wanted) q.before

  -- `MemoryLedger`: what it hands out is a copy.
  abbrev pub unless_refused : Validity → List Fields → LedgerError ⊎ List Fields
  unless_refused none rows = inr rows
  unless_refused (some why) rows = inl why

  unfoldable pub memory_append : Fields → List Fields → LedgerError ⊎ List Fields
  memory_append e rows = unless_refused (validate_entry e) (rows ++ e ∷ [])

  unfoldable pub memory_ledger : Ledger (List Fields)
  unfolding memory_append matches
  memory_ledger = record {
    append = memory_append;
    query = λ q rows. keep (matches q) rows;
    count = λ q rows. length (keep (matches q) rows);
    integrity = λ rows. record { ok = true; path = ""; entries = length rows; corrupt = [] };
  }

-- What an append to one side makes of both
abbrev pub beside : {S T : Type 0} → (S → T) → LedgerError ⊎ S → LedgerError ⊎ T
beside f (inl why) = inl why
beside f (inr s) = inr (f s)

-- `SplitLedger`, over two ledgers
module _ {S T : Type 0} (genome : Ledger S) (gig : Ledger T) where
  unfoldable pub split_append : Fields → S × T → LedgerError ⊎ (S × T)
  split_append e (s, t) =
      if kind_of e == "genome_mutation"
      then beside (λ s'. (s', t)) (genome.append e s)
      else beside (λ t'. (s, t')) (gig.append e t)

  unfoldable pub split_query : LedgerQuery → S × T → List Fields
  unfolding includes
  split_query q (s, t) =
      if q.kind == "genome_mutation"
      then genome.query q s
      else if includes q.kind ("gig" ∷ "governance" ∷ "chair_spend" ∷ [])
      then gig.query q t
      else genome.query q s ++ gig.query q t

  unfoldable pub split_integrity : S × T → LedgerIntegrityReport
  split_integrity (s, t) =
      let g = genome.integrity s in
      let r = gig.integrity t in
      record {
        ok = g.ok && r.ok;
        path = r.path;
        entries = g.entries + r.entries;
        corrupt = g.corrupt ++ r.corrupt;
      }

  unfoldable pub split_ledger : Ledger (S × T)
  unfolding split_append split_query split_integrity
  split_ledger = record {
    append = split_append;
    query = split_query;
    count = λ q both. length (split_query q both);
    integrity = split_integrity;
  }

-- A refused append leaves the ledger as it was.
abbrev pub kept : {S : Type 0} → S → LedgerError ⊎ S → S
kept s (inl why) = s
kept s (inr s') = s'

unfoldable pub append_all : {S : Type 0} → Ledger S → List Fields → S → S
append_all l [] s = s
append_all l (e ∷ es) s = append_all l es (kept s (l.append e s))
