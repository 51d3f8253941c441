-- ===== src/Policy/Hosts.antt =====
-- backend/policy.py: which hosts a domain rule covers. An inclusion covers subdomains only by an
-- explicit wildcard; an exclusion always does.
use vardr_map.Base.{
  ℕ, ◌≡◌, sym, ◌≢◌, ◌↔◌, ◌⊎◌, inl, inr, true, false, [], ◌∷◌, ◌++◌, arith, ◌==◌, Bool-cases,
  if◌then◌else◌, drop, str_eq, ◌||◌,
}
use mathlib.Core.Bool.{false≢true}
use mathlib.Core.List.{append_assoc}
use vardr_map.Text.{Text, text, eqb, starts_with, strip, lower}
use vardr_map.Text.Laws.{eqb_iff, ends_with-split, ends_with-append}
use vardr_map.Policy.Match.{
  ScopeRule, rule_text, is_under, host_covers, carve_covers, host_matches, excludes_host,
  name_matches, rule_matches,
}
use vardr_map.Policy.Target.{domain}

-- The host is a subdomain: some text, a dot, and the suffix.
abbrev pub IsUnder : Text → Text → Type 0
IsUnder host suffix = (label : Text) × (host ≡ label ++ (b'.' ∷ suffix))

is_under_iff : (host suffix : Text) → (is_under host suffix ≡ true) ↔ IsUnder host suffix
is_under_iff host suffix = (
  λ h. ends_with-split host (b'.' ∷ suffix) h,
  λ (label, e). rw e (ends_with-append label (b'.' ∷ suffix)),
)

-- A rule with no wildcard covers its own name and nothing else.
pub host_covers-plain :
    (c : ℕ) (rule host : Text) → c ≢ b'*' → (host_covers (c ∷ rule) host ≡ true) ↔ (host ≡ c ∷ rule)
unfolding host_covers
host_covers-plain c rule host h = ground (arith, eqb_iff host (c ∷ rule))

-- `*.suffix` covers the names below the suffix, and not the suffix itself.
pub host_covers-wildcard :
    (suffix host : Text) → (host_covers (text "*." ++ suffix) host ≡ true) ↔ IsUnder host suffix
unfolding host_covers
host_covers-wildcard suffix host = is_under_iff host suffix

-- `*suffix`, with no dot, covers both.
pub host_covers-star :
    (c : ℕ) (suffix host : Text)
    → c ≢ b'.'
    → (host_covers (b'*' ∷ c ∷ suffix) host ≡ true)
      ↔ ((host ≡ c ∷ suffix) ⊎ IsUnder host (c ∷ suffix))
unfolding host_covers
host_covers-star c suffix host h = elim (Bool-cases (c == b'.')) [
  | inl e ↦ absurd (h (ground arith))
  | inr e ↦ rw e (ground (arith, eqb_iff host (c ∷ suffix), is_under_iff host (c ∷ suffix)))
]

carve-of-cover : (rule host : Text) → host_covers rule host ≡ true → carve_covers rule host ≡ true
unfolding host_covers carve_covers
carve-of-cover rule host h = ground arith

-- What a value covers as an inclusion it covers as an exclusion too.
pub excludes_host-of_host_matches :
    (value host : Text) → host_matches value host ≡ true → excludes_host value host ≡ true
unfolding host_matches excludes_host
excludes_host-of_host_matches value host h = carve-of-cover (rule_text value) host h

IsUnder-append :
    (label host suffix : Text) → IsUnder host suffix → IsUnder (label ++ (b'.' ∷ host)) suffix
IsUnder-append label host suffix (front, e) =
    (label ++ (b'.' ∷ front), rw e (sym (append_assoc label (b'.' ∷ front) (b'.' ∷ suffix))))

is_under-append :
    (label host suffix : Text)
    → is_under host suffix ≡ true
    → is_under (label ++ (b'.' ∷ host)) suffix ≡ true
is_under-append label host suffix h =
    (is_under_iff _ suffix).1 (IsUnder-append label host suffix ((is_under_iff host suffix).0 h))

carve_covers-subtree :
    (rule host label : Text)
    → carve_covers rule host ≡ true
    → carve_covers rule (label ++ (b'.' ∷ host)) ≡ true
unfolding carve_covers
carve_covers-subtree rule host label h =
    let stem = if starts_with rule (text "*") then drop 1 rule else rule in
    ground (
      arith,
      is_under-append label host (drop 2 rule),
      is_under-append label host stem,
      eqb_iff host stem,
      ends_with-append label (b'.' ∷ stem),
    )

excludes_host-subtree :
    (value host label : Text)
    → excludes_host value host ≡ true
    → excludes_host value (label ++ (b'.' ∷ host)) ≡ true
unfolding excludes_host
excludes_host-subtree value host label h = carve_covers-subtree (rule_text value) host label h

-- An exclusion of any kind but cidr, url and api that covers the domain of a target covers every
-- subdomain of that domain too, whatever the texts that the two targets were given as.
pub rule_matches-subtree :
    (rule : ScopeRule) (host label raw raw' : Text)
    → rule.excluded ≡ true
    → str_eq rule.kind "cidr" ≡ false
    → (str_eq rule.kind "url" || str_eq rule.kind "api") ≡ false
    → rule_matches rule (domain host) raw ≡ true
    → rule_matches rule (domain (label ++ (b'.' ∷ host))) raw' ≡ true
unfolding rule_matches name_matches
rule_matches-subtree rule host label raw raw' out cidr url h =
    let value = lower (strip rule.value) in
    elim (Bool-cases (eqb value [])) [
      | inl e ↦ absurd (false≢true (rw e at h))
      | inr e ↦
          let covered : excludes_host value host ≡ true = rw (e, cidr, url, out) at h in
          rw (e, cidr, url, out) (excludes_host-subtree value host label covered)
    ]
