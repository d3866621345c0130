-- ===== src/Access/Exposure.antt =====
-- `exposedTools`, `undeclaredScopeTools` and `checkGrantTTL` of src/access_grant.ts.
use coltrane.Base.{
  includes-keep, ℕ, ◌≡◌, refl, String, Bool, true, false, not, ◌&&◌, ◌||◌, Option, none, some,
  includes, arith, Bool-cases, leb, inl, inr, ◌==◌, eq_iff, subst, ◌∙◌, ◌≤◌, ◌↔◌,
}
use coltrane.Access.{
  AccessGrant, Permissions, ExposeQuery, Phase, create, read_tools, write_tools, deploy_tools,
  is_read_phase, is_write_phase, is_exposed, exposed_tools, undeclared_scope_tools, check_grant_ttl,
  ttl_of, valid, expired,
}

abbrev pub full_permissions : Permissions
full_permissions = record { read = true; write = true; execute = true; deploy = true }

-- The permission that a tool of each declared class needs in a phase. The three classes share no
-- tool, so the order in which the code asks for them does not show.
abbrev pub may_use : Phase → Permissions → String → Bool
may_use phase p tool =
    (includes tool deploy_tools && p.deploy)
    || (includes tool write_tools && p.write && is_write_phase phase)
    || (includes tool read_tools && p.read && (is_read_phase phase || is_write_phase phase))

deploy_apart :
    (t : String)
    → includes t deploy_tools ≡ true
    → (includes t write_tools ≡ false) × (includes t read_tools ≡ false)
unfolding includes
deploy_apart t h =
    subst (λ u. (includes u write_tools ≡ false) × (includes u read_tools ≡ false))
      ((eq_iff "deploy" t).0 (ground (arith, h))) (refl, refl)

write_apart : (t : String) → includes t write_tools ≡ true → includes t read_tools ≡ false
unfolding includes
write_apart t h = elim (Bool-cases ("file_write" == t)) [
  | inl b ↦ subst (λ u. includes u read_tools ≡ false) ((eq_iff "file_write" t).0 b) refl
  | inr b ↦
      subst (λ u. includes u read_tools ≡ false) ((eq_iff "shell_exec" t).0 (ground (arith, b, h)))
        refl
]

is_exposed-may_use :
    (q : ExposeQuery) (t : String) → is_exposed q t ≡ may_use q.phase q.grant.permissions t
unfolding is_exposed
is_exposed-may_use q t = ground (arith, deploy_apart t, write_apart t)

-- A tool is exposed exactly if the agent is allowed it and the grant permits its class in the phase:
-- a deploying tool in any, a writing tool while creating, a reading one in each phase but that of
-- verification. A tool of no declared class is exposed by no grant.
exposed_tools_exact :
    (q : ExposeQuery) (t : String)
    → includes t (exposed_tools q)
      ≡ (includes t q.agent_allowed && may_use q.phase q.grant.permissions t)
unfolding exposed_tools
exposed_tools_exact q t =
    rw (includes-keep (is_exposed q) t q.agent_allowed, is_exposed-may_use q t)

-- While creating, under a grant of every permission, `exposedTools` leaves out of the allowed tools
-- exactly those that `undeclaredScopeTools` reports.
undeclared_scope_tools_exact :
    (q : ExposeQuery) (t : String)
    → q.phase ≡ create
    → q.grant.permissions ≡ full_permissions
    → includes t (undeclared_scope_tools q.agent_allowed)
      ≡ (includes t q.agent_allowed && not (includes t (exposed_tools q)))
unfolding undeclared_scope_tools
undeclared_scope_tools_exact q t c p =
    includes-keep
      (λ t.
        not (includes t read_tools)
        && not (includes t write_tools)
        && not (includes t deploy_tools))
      t q.agent_allowed
    ∙ rw (exposed_tools_exact q t, c, p) (ground arith)

valid-expired {ℓ} : {A : Type ℓ} {o : Option ℕ} {text : String} → valid o ≡ expired text → A
valid-expired h = cc

expired-leb :
    (text : String) (expiry now : ℕ)
    → (ttl_of text (some expiry) now ≡ expired text) ↔ (expiry ≤ now)
expired-leb text expiry now = elim (Bool-cases (leb expiry now)) [
  | inl b ↦ (λ h. ground (arith, b), λ h. rw b)
  | inr b ↦ (λ h. valid-expired (rw b at h), λ h. ground (arith, b, h))
]

-- A grant whose `expires_at` is a date is valid before that date and at no other time.
check_grant_ttl_dated :
    (date_parse : String → Option ℕ) (grant : AccessGrant) (now expiry : ℕ)
    → date_parse grant.expires_at ≡ some expiry
    → (check_grant_ttl date_parse grant now ≡ expired grant.expires_at) ↔ (expiry ≤ now)
unfolding check_grant_ttl
check_grant_ttl_dated date_parse grant now expiry h = rw h (expired-leb grant.expires_at expiry now)

-- A grant whose `expires_at` is no date never expires.
undated_never_expires :
    (date_parse : String → Option ℕ) (grant : AccessGrant) (now : ℕ)
    → date_parse grant.expires_at ≡ none
    → check_grant_ttl date_parse grant now ≡ valid none
unfolding check_grant_ttl
undated_never_expires date_parse grant now h = rw h
