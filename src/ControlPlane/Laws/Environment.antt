-- ===== src/ControlPlane/Laws/Environment.antt =====
-- comps.go: what a program that is run in place of this one finds in its environment.
use runkube.Common.{
  ◌≡◌, ◌≢◌, ◌∙◌, refl, sym, ap, subst, String, Bool, true, Option, some, List, [], ◌∷◌, ◌++◌, arith,
  Option-cases, inl, inr, In, here, In-append, In-append_right, In-single, In-select,
  In-select_passes, contains, concat,
}
use runkube.Pki.{Crypto}
use runkube.ControlPlane.{Config, World, kube_config_ref}
use runkube.ControlPlane.Commands.{safe_keys, cut_key, is_safe, make_safe_env, Exec, kubectl_exec}

abbrev pub contains_key : String → Bool
contains_key k = contains safe_keys k

-- No entry of the caller sets KUBECONFIG.
make_safe_env-no_kubeconfig :
    (env : List String) (s : String) → In s (make_safe_env env) → cut_key s ≢ "KUBECONFIG"
unfolding make_safe_env is_safe
make_safe_env-no_kubeconfig env s i e =
    let safe : contains_key (cut_key s) ≡ true = In-select_passes is_safe s env i in
    let unsafe : contains_key "KUBECONFIG" ≡ true = ap contains_key (sym e) ∙ safe in absurd (cc)

make_safe_env-kept :
    (env : List String) (s : String)
    → In s (make_safe_env env)
    → In s env × (contains_key (cut_key s) ≡ true)
unfolding make_safe_env is_safe
make_safe_env-kept env s i = (In-select is_safe s env i, In-select_passes is_safe s env i)

module _ {x : Crypto} (w : World x) (look_path : String → Option String) (c : Config) where
  -- The one entry that `KubectlExec` adds.
  abbrev kubeconfig_entry : String
  kubeconfig_entry = concat ("KUBECONFIG=" ∷ kube_config_ref c "system-admin" ∷ [])

  final_env_lem :
      (env : List String)
      → In kubeconfig_entry (make_safe_env env ++ kubeconfig_entry ∷ [])
        × ((s : String)
            → In s (make_safe_env env ++ kubeconfig_entry ∷ [])
            → cut_key s ≡ "KUBECONFIG"
            → s ≡ kubeconfig_entry)
        × ((s : String)
            → In s (make_safe_env env ++ kubeconfig_entry ∷ [])
            → s ≢ kubeconfig_entry
            → In s env × (contains_key (cut_key s) ≡ true))
  final_env_lem env = (
    In-append_right kubeconfig_entry (make_safe_env env) (kubeconfig_entry ∷ []) (here refl),
    λ s i key. elim (In-append (make_safe_env env) (kubeconfig_entry ∷ []) i) [
      | inl kept ↦ absurd (make_safe_env-no_kubeconfig env s kept key)
      | inr last ↦ sym (In-single last)
    ],
    λ s i other. elim (In-append (make_safe_env env) (kubeconfig_entry ∷ []) i) [
      | inl kept ↦ make_safe_env-kept env s kept
      | inr last ↦ absurd (other (sym (In-single last)))
    ],
  )

  -- Where kubectl is found, it gets the kubeconfig of the administrator and no other, whatever the
  -- caller's environment says; of that environment it gets nothing else than the entries of the safe
  -- keys.
  pub kubectl_exec_lem :
      (env args : List String) (e : Exec)
      → kubectl_exec w look_path c env args ≡ some e
      → In kubeconfig_entry e.env
        × ((s : String) → In s e.env → cut_key s ≡ "KUBECONFIG" → s ≡ kubeconfig_entry)
        × ((s : String)
            → In s e.env
            → s ≢ kubeconfig_entry
            → In s env × (contains_key (cut_key s) ≡ true))
  unfolding kubectl_exec
  kubectl_exec_lem env args e is_e = elim (Option-cases (look_path "kubectl")) [
    | inl missing ↦ absurd (ground arith)
    | inr (p, found) ↦
        subst
          (λ final.
            In kubeconfig_entry final
            × ((s : String) → In s final → cut_key s ≡ "KUBECONFIG" → s ≡ kubeconfig_entry)
            × ((s : String)
                → In s final
                → s ≢ kubeconfig_entry
                → In s env × (contains_key (cut_key s) ≡ true)))
          (same_env p found) (final_env_lem env)
  ]
    where
      same_env :
          (p : String)
          → look_path "kubectl" ≡ some p
          → make_safe_env env ++ kubeconfig_entry ∷ [] ≡ e.env
      same_env p found = ground (arith, found, is_e)
