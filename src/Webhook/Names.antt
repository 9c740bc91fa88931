-- ===== src/Webhook/Names.antt =====
-- Which user names the logs of pkg/webhook/webhook.go show as they are.
use runkube.Common.{
  ◌≡◌, refl, ◌≢◌, ◌⊎◌, inl, inr, String, true, false, not, ◌&&◌, ◌||◌, none, some, List, arith,
  eq_iff, Bool-cases, Option-cases, contains, ◌==◌, if◌then◌else◌,
}
use runkube.Webhook.{UserInfo, cut_prefix, is_prefixed_member, is_known_system, user_info_log_value}

-- A component name, or a member of the group that belongs to its prefix.
abbrev pub IsTrusted : List String → String → Type 0
IsTrusted groups p =
    ((p ≡ "apiserver") × (contains groups "system:masters" ≡ true))
    ⊎ (p ≡ "kube-scheduler")
    ⊎ (p ≡ "kube-controller-manager")
    ⊎ ((n : String) × (cut_prefix p "node:" ≡ some n)
        × (n ≢ "")
        × (contains groups "system:nodes" ≡ true))
    ⊎ ((n : String) × (cut_prefix p "serviceaccount:" ≡ some n)
        × (n ≢ "")
        × (contains groups "system:serviceaccounts" ≡ true))

member_eq :
    (groups : List String) (p prefix group : String)
    → is_prefixed_member groups p prefix group ≡ elim (cut_prefix p prefix) [
      | none ↦ false
      | some n ↦ not (n == "") && contains groups group
    ]
unfolding is_prefixed_member
member_eq groups p prefix group = refl

known_eq :
    (groups : List String) (p : String)
    → is_known_system groups p ≡ (
        (p == "apiserver" && contains groups "system:masters")
        || ((p == "kube-scheduler" || p == "kube-controller-manager")
            || (is_prefixed_member groups p "node:" "system:nodes"
                || is_prefixed_member groups p "serviceaccount:" "system:serviceaccounts")))
unfolding is_known_system
known_eq groups p = refl

shown_eq :
    (a : UserInfo)
    → user_info_log_value a ≡ elim (cut_prefix a.username "system:") [
      | none ↦ none
      | some p ↦ if not (p == "") && is_known_system a.groups p then some a.username else none
    ]
unfolding user_info_log_value
shown_eq a = refl

member_lem :
    (groups : List String) (p prefix group : String)
    → is_prefixed_member groups p prefix group ≡ true
    → (n : String) × (cut_prefix p prefix ≡ some n) × (n ≢ "") × (contains groups group ≡ true)
member_lem groups p prefix group e = elim (Option-cases (cut_prefix p prefix)) [
  | inl n ↦ ground (arith, member_eq groups p prefix group)
  | inr (n, cut) ↦ (
    n,
    cut,
    (λ h. ground (arith, member_eq groups p prefix group, eq_iff n "")),
    ground (arith, member_eq groups p prefix group),
  )
]

trusted : (groups : List String) (p : String) → is_known_system groups p ≡ true → IsTrusted groups p
trusted groups p e = elim (Bool-cases (p == "apiserver" && contains groups "system:masters")) [
  | inl a ↦ inl (ground (arith, eq_iff p "apiserver"), ground arith)
  | inr a ↦ elim (Bool-cases (p == "kube-scheduler")) [
    | inl b ↦ inr (inl ((eq_iff p "kube-scheduler").0 b))
    | inr b ↦ elim (Bool-cases (p == "kube-controller-manager")) [
      | inl c ↦ inr (inr (inl ((eq_iff p "kube-controller-manager").0 c)))
      | inr c ↦ elim (Bool-cases (is_prefixed_member groups p "node:" "system:nodes")) [
        | inl d ↦ inr (inr (inr (inl (member_lem groups p "node:" "system:nodes" d))))
        | inr d ↦ inr (
            inr (
              inr (
                inr (
                  member_lem groups p "serviceaccount:" "system:serviceaccounts"
                    (ground (arith, known_eq groups p))))))
      ]
    ]
  ]
]

-- A name that is shown as it is is the user's own, and a name of the system: of the API server that
-- is in "system:masters", of the scheduler or the controller manager, or of a node or a service
-- account that is in its group. Every other user is shown in full.
pub user_info_log_value_lem :
    (a : UserInfo) (name : String)
    → user_info_log_value a ≡ some name
    → (name ≡ a.username)
      × ((p : String) × (cut_prefix a.username "system:" ≡ some p)
          × (p ≢ "")
          × IsTrusted a.groups p)
user_info_log_value_lem a name e = elim (Option-cases (cut_prefix a.username "system:")) [
  | inl n ↦ ground (arith, shown_eq a)
  | inr (p, cut) ↦
      let (nonempty, known) : ((p == "") ≡ false) × (is_known_system a.groups p ≡ true) =
        (ground (arith, shown_eq a), ground (arith, shown_eq a)) in
      (
        ground (arith, shown_eq a),
        (p, cut, (λ h. ground (arith, eq_iff p "")), trusted a.groups p known),
      )
]
