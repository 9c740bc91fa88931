-- ===== src/Webhook/Decisions.antt =====
-- Who is allowed what by the built-in authorizer of webhook.go, and who is named in the logs.
use runkube.Common.{
  ◌≡◌, refl, subst, ◌⊎◌, ◌↔◌, inl, inr, true, false, ◌||◌, Option, none, some, arith, eq_iff,
  Bool-cases, contains, ◌==◌, if◌then◌else◌,
}
use runkube.Webhook.{
  ResourceAttributes, SubjectAccessReviewSpec, reads_authentication_config, is_mismatched,
  allows_resource, is_allowed, builtin_authorizer, sar_allowed, sar_no_opinion, sar_result,
}

-- A read of the one config map that the aggregated API servers authenticate by.
abbrev pub ReadsConfig : ResourceAttributes → Type 0
ReadsConfig r =
    ((r.verb ≡ "get") ⊎ (r.verb ≡ "watch") ⊎ (r.verb ≡ "list"))
    × (r.name ≡ "extension-apiserver-authentication")
    × (r.resource ≡ "configmaps")
    × (r.group ≡ "")
    × (r.subresource ≡ "")

abbrev pub IsAllowed : SubjectAccessReviewSpec → Type 0
IsAllowed spec =
    ((spec.user ≡ "system:apiserver") × (contains spec.groups "system:masters" ≡ true))
    ⊎ (((spec.user ≡ "system:controller-manager-authnz") ⊎ (spec.user ≡ "system:scheduler-authnz"))
        × ((r : ResourceAttributes) × (spec.resource_attributes ≡ some r) × ReadsConfig r))

reads_config_lem :
    (r : ResourceAttributes)
    → (is_mismatched (reads_authentication_config r) ≡ false) ↔ ReadsConfig r
unfolding is_mismatched reads_authentication_config
reads_config_lem r = (
  (λ e. (
    verb_of (ground arith),
    ground (arith, eq_iff r.name "extension-apiserver-authentication"),
    ground (arith, eq_iff r.resource "configmaps"),
    ground (arith, eq_iff r.group ""),
    ground (arith, eq_iff r.subresource ""),
  )),
  (λ c. ground (
    arith,
    eq_iff r.verb "get",
    eq_iff r.verb "watch",
    eq_iff r.verb "list",
    eq_iff r.name "extension-apiserver-authentication",
    eq_iff r.resource "configmaps",
    eq_iff r.group "",
    eq_iff r.subresource "",
  )),
)
  where
    verb_of :
        (r.verb == "get" || (r.verb == "watch" || r.verb == "list")) ≡ true
        → (r.verb ≡ "get") ⊎ (r.verb ≡ "watch") ⊎ (r.verb ≡ "list")
    verb_of h = elim (Bool-cases (r.verb == "get")) [
      | inl a ↦ inl ((eq_iff r.verb "get").0 a)
      | inr a ↦ elim (Bool-cases (r.verb == "watch")) [
        | inl b ↦ inr (inl ((eq_iff r.verb "watch").0 b))
        | inr b ↦ inr (inr (ground (arith, eq_iff r.verb "list")))
      ]
    ]

resource_lem :
    (o : Option ResourceAttributes)
    → (allows_resource o ≡ true) ↔ ((r : ResourceAttributes) × (o ≡ some r) × ReadsConfig r)
unfolding allows_resource
resource_lem none = ((λ e. ground arith), (λ (r, e, _). cc))
resource_lem (some r) = (
  (λ e. (r, refl, (reads_config_lem r).0 (ground arith))),
  (λ (s, e, reads).
      let h : ReadsConfig r = subst ReadsConfig (same s e) reads in
      ground (arith, (reads_config_lem r).1 h)),
)
  where
    same : (s : ResourceAttributes) → some r ≡ some s → s ≡ r
    same s e = cc

-- The user of `IsAllowed` decides which of its cases is looked at.
is_allowed_lem : (spec : SubjectAccessReviewSpec) → (is_allowed spec ≡ true) ↔ IsAllowed spec
unfolding is_allowed
is_allowed_lem spec = (to, from)
  where
    to : is_allowed spec ≡ true → IsAllowed spec
    to e = elim (Bool-cases (spec.user == "system:apiserver")) [
      | inl a ↦ inl ((eq_iff spec.user "system:apiserver").0 a, ground arith)
      | inr a ↦ elim (Bool-cases (spec.user == "system:controller-manager-authnz")) [
        | inl b ↦ inr (
          inl ((eq_iff spec.user "system:controller-manager-authnz").0 b),
          (resource_lem spec.resource_attributes).0 (ground arith),
        )
        | inr b ↦ elim (Bool-cases (spec.user == "system:scheduler-authnz")) [
          | inl c ↦ inr (
            inr ((eq_iff spec.user "system:scheduler-authnz").0 c),
            (resource_lem spec.resource_attributes).0 (ground arith),
          )
          | inr c ↦ ground arith
        ]
      ]
    ]

    from : IsAllowed spec → is_allowed spec ≡ true
    from (inl (user, masters)) = ground (arith, eq_iff spec.user "system:apiserver")
    from (inr (inl user, reads)) =
        let h = (resource_lem spec.resource_attributes).1 reads in rw user h
    from (inr (inr user, reads)) =
        let h = (resource_lem spec.resource_attributes).1 reads in rw user h

-- The built-in authorizer never denies. It allows the API server that is in the group
-- "system:masters", and the two authentication users a get, watch or list of the one config map
-- "extension-apiserver-authentication", itself and no subresource; and nothing else, so every other
-- request is logged as one without an opinion.
pub builtin_authorizer_lem :
    (spec : SubjectAccessReviewSpec)
    → let st = builtin_authorizer spec in
      (st.denied ≡ false)
      × ((st.allowed ≡ true) ↔ IsAllowed spec)
      × (sar_result st ≡ (if st.allowed then sar_allowed else sar_no_opinion))
unfolding builtin_authorizer sar_result
builtin_authorizer_lem spec = (refl, is_allowed_lem spec, ground arith)
