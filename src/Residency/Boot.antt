-- ===== src/Residency/Boot.antt =====
-- src/residency.ts: the seating of a residency, the reflex acknowledgement on a clock that counts
-- ticks, impressions and the credentials of a venue. What `seatRow` is called with is returned beside
-- the result, and a lookup of an agent or a venue is a test whether it is found.
use coltrane.Base.{
  ℕ, ◌+◌, ◌-◌, String, ◌≡◌, Bool, true, not, none, List, [], ◌∷◌, if◌then◌else◌, includes, ◌↔◌,
  Bool-cases, inl, inr, sym, cons-nil,
}
use coltrane.Residency.{ResidencyRecord, seated}

pub record ResidencySpec : Type 0 where
  pub agent_slug : String
  pub org : String
  pub venue_slug : String
  pub channel_id : String

pub record BootDeps : Type 0 where
  pub resolve_agent : String → Bool
  pub resolve_venue : String → Bool
  pub cortex_present : Bool

pub data BootRefusal : Type 0 where
  no_such_agent no_such_venue no_cortex : BootRefusal

pub data BootResult : Type 0 where
  ok : ResidencyRecord → BootResult
  refuse : BootRefusal → BootResult

abbrev first_row : ResidencySpec → ResidencyRecord
first_row spec = record {
  agent_slug = spec.agent_slug;
  org = spec.org;
  venue_slug = spec.venue_slug;
  channel_id = spec.channel_id;
  soul_output_id = none;
  status = seated;
  session_id = none;
  cursor = 0;
  host = none;
  lease_until = 0;
  heartbeat_at = 0;
  fence = 0;
  last_sealed_sha = none;
  private_memory = none;
}

-- The result, and the rows that were seated.
boot_residency : ResidencySpec → BootDeps → BootResult × List ResidencyRecord
boot_residency spec deps =
    if not (deps.resolve_agent spec.agent_slug)
    then (refuse no_such_agent, [])
    else if not (deps.resolve_venue spec.venue_slug)
    then (refuse no_such_venue, [])
    else if not deps.cortex_present
    then (refuse no_cortex, [])
    else (ok (first_row spec), first_row spec ∷ [])

pub record ReflexResult : Type 0 where
  pub acked : Bool
  pub elapsed_ticks : ℕ

-- The clock before, and the result with the clock after.
reflex_ack : ℕ → ReflexResult × ℕ
reflex_ack clock =
    let later = clock + 1 in (record { acked = true; elapsed_ticks = later - clock }, later)

pub data Impressions : Type 0 where
  scoped_out : Impressions
  content : String → Impressions

abbrev read_own_impressions : ResidencyRecord → Impressions
read_own_impressions rec = scoped_out

pub data CredentialAdmission : Type 0 where
  admitted credential_breach : CredentialAdmission

admit_venue_credential : List String → String → CredentialAdmission
admit_venue_credential credential_surface credential =
    if includes credential credential_surface then admitted else credential_breach

-- What a boot needs
record IsBootable (spec : ResidencySpec) (deps : BootDeps) : Type 0 where
  agent : deps.resolve_agent spec.agent_slug ≡ true
  venue : deps.resolve_venue spec.venue_slug ≡ true
  cortex : deps.cortex_present ≡ true

-- A boot seats its row exactly if the agent and the venue are found and a cortex is present; otherwise
-- it seats none.
boot_residency_exact :
    (spec : ResidencySpec) (deps : BootDeps)
    → ((boot_residency spec deps).1 ≡ first_row spec ∷ []) ↔ IsBootable spec deps
unfolding boot_residency
boot_residency_exact spec deps = (
  λ h. elim (Bool-cases (deps.resolve_agent spec.agent_slug)) [
    | inl a ↦ elim (Bool-cases (deps.resolve_venue spec.venue_slug)) [
      | inl v ↦ elim (Bool-cases deps.cortex_present) [
        | inl c ↦ record { agent = a; venue = v; cortex = c }
        | inr c ↦ cons-nil (sym (rw (a, v, c) at h))
      ]
      | inr v ↦ cons-nil (sym (rw (a, v) at h))
    ]
    | inr a ↦ cons-nil (sym (rw a at h))
  ],
  λ b. rw (b.agent, b.venue, b.cortex),
)
