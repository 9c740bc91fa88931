-- ===== src/ControlPlane/Laws/Steps.antt =====
-- controlplane.go: `Init` as a whole: if it ends well, every step has, and their files are there.
use runkube.Common.{
  ◌≡◌, ◌≢◌, refl, sym, subst, ℕ, zero, suc, String, Option, none, some, List, [], ◌∷◌, arith, inl,
  inr, All, get_elem?, or_else,
}
use mathlib.Core.Option.{some-injective}
use runkube.Disk.{Disk, HasFile}
use runkube.Pki.{Crypto, Error, Outcome, Outcome-cases, done}
use runkube.ControlPlane.{Config, World, Machine, Step, config_ref, kube_config_ref}
use runkube.ControlPlane.Configs.{make_extension_kubeconfig}
use runkube.ControlPlane.Configs.Server.{
  make_egress_selector_config, make_authentication_config, make_authorization_config,
  make_admission_config, make_audit_policy, make_encryption_provider_config,
}
use runkube.ControlPlane.Init.{run_all, init_steps}
use runkube.ControlPlane.Laws.Kept.{
  Keeps, put_kube_config-Keeps, put_config-Keeps, make_key_set-Keeps, make_dir-Keeps,
  make_api_service-Keeps, make_admission_webhook-Keeps, run_all-Keeps,
}
use runkube.ControlPlane.Laws.Files.{Makes, put_kube_config-Makes, put_config-Makes}

module _ {x : Crypto} (w : World x) where
  -- An error is not forgotten.
  run_all-failed :
      (ms : List (Step x)) (e : Error) (s : Machine x) → (run_all x w ms (some e) s).0 ≢ done
  unfolding run_all
  run_all-failed [] e s h = cc
  run_all-failed (m ∷ ms) e s h = elim (Outcome-cases (m s).0) [
    | inl good ↦ run_all-failed ms e (m s).1 (ground arith)
    | inr (inl (e', bad)) ↦ run_all-failed ms e (m s).1 (ground arith)
    | inr (inr panics) ↦ absurd (ground arith)
  ]

  -- If the list ends well, its first call has, and the rest too.
  run_all-done :
      (m : Step x) (ms : List (Step x)) (first : Option Error) (s : Machine x)
      → (run_all x w (m ∷ ms) first s).0 ≡ done
      → ((m s).0 ≡ done)
        × ((run_all x w ms first (m s).1).0 ≡ done)
        × (run_all x w (m ∷ ms) first s ≡ run_all x w ms first (m s).1)
  unfolding run_all
  run_all-done m ms first s e = elim (Outcome-cases (m s).0) [
    | inl good ↦ ground arith
    | inr (inl (err, bad)) ↦ absurd (run_all-failed ms (or_else first err) (m s).1 (ground arith))
    | inr (inr panics) ↦ absurd (ground arith)
  ]

  -- A file that one of the calls makes is there at the end.
  run_all-Makes :
      (ms : List (Step x)) (first : Option Error) (q : String) (i : ℕ) (m : Step x)
      → All Keeps ms
      → get_elem? ms i ≡ some m
      → Makes q m
      → Makes q (run_all x w ms first)
  run_all-Makes [] first q i m keeps at_i makes s e = absurd (cc)
  run_all-Makes (k ∷ ms) first q zero m keeps at_i makes s e =
      let (good, later, same) = run_all-done k ms first s e in
      let k_makes : Makes q k = subst (Makes q) (sym (some-injective _ _ at_i)) makes in
      subst (λ (o : Outcome × Machine x). HasFile o.1.disk q) (sym same)
        (run_all-Keeps w ms first keeps.1 (k s).1 q (k_makes s good))
  run_all-Makes (k ∷ ms) first q (suc i) m keeps at_i makes s e =
      let (good, later, same) = run_all-done k ms first s e in
      subst (λ (o : Outcome × Machine x). HasFile o.1.disk q) (sym same)
        (run_all-Makes ms first q i m keeps.1 at_i makes (k s).1 later)

  module _ (c : Config) where
    pub init_steps-Keeps : All Keeps (init_steps x w c)
    unfolding init_steps make_extension_kubeconfig make_egress_selector_config
        make_authentication_config make_authorization_config make_admission_config make_audit_policy
        make_encryption_provider_config
    init_steps-Keeps = (
      λ s. put_kube_config-Keeps w c _ _ s,
      (
        λ s. put_kube_config-Keeps w c _ _ s,
        (
          λ s. put_kube_config-Keeps w c _ _ s,
          (
            put_config-Keeps w c _ _,
            (
              put_config-Keeps w c _ _,
              (
                put_config-Keeps w c _ _,
                (
                  put_config-Keeps w c _ _,
                  (
                    put_config-Keeps w c _ _,
                    (
                      make_admission_webhook-Keeps w c,
                      (
                        put_config-Keeps w c _ _,
                        (
                          make_api_service-Keeps w c _,
                          (
                            make_key_set-Keeps w c _ _ _,
                            (
                              make_key_set-Keeps w c _ _ _,
                              (
                                make_dir-Keeps w c _,
                                (make_dir-Keeps w c _, (make_dir-Keeps w c _, tt)),
                              ),
                            ),
                          ),
                        ),
                      ),
                    ),
                  ),
                ),
              ),
            ),
          ),
        ),
      ),
    )

    -- The files of the configuration, after all steps.
    init_steps-HasFile :
        (q : String) (i : ℕ) (m : Step x) (s : Machine x)
        → get_elem? (init_steps x w c) i ≡ some m
        → Makes q m
        → (run_all x w (init_steps x w c) none s).0 ≡ done
        → HasFile (run_all x w (init_steps x w c) none s).1.disk q
    init_steps-HasFile q i m s at_i makes =
        run_all-Makes (init_steps x w c) none q i m init_steps-Keeps at_i makes s

    abbrev pub HasConfig : Disk x.Bytes → String → Type 0
    HasConfig d name = HasFile d (config_ref c name)

    -- The configuration files and kubeconfigs that the processes are told of.
    abbrev pub HasConfigs : Disk x.Bytes → Type 0
    HasConfigs d =
        HasFile d (kube_config_ref c "authentication-token-webhook")
        × HasFile d (kube_config_ref c "audit-webhook")
        × HasConfig d "egress-selector-config"
        × HasConfig d "authentication-config"
        × HasConfig d "authorization-config"
        × HasConfig d "admission-config"
        × HasConfig d "audit-policy"
        × HasConfig d "encryption-provider-config"

    pub init_steps-HasConfigs :
        (s : Machine x)
        → (run_all x w (init_steps x w c) none s).0 ≡ done
        → HasConfigs (run_all x w (init_steps x w c) none s).1.disk
    unfolding init_steps make_extension_kubeconfig make_egress_selector_config
        make_authentication_config make_authorization_config make_admission_config make_audit_policy
        make_encryption_provider_config
    init_steps-HasConfigs s e = (
      init_steps-HasFile _ 0 _ s refl (λ s'. put_kube_config-Makes w c _ _ s') e,
      init_steps-HasFile _ 2 _ s refl (λ s'. put_kube_config-Makes w c _ _ s') e,
      init_steps-HasFile _ 3 _ s refl (put_config-Makes w c _ _) e,
      init_steps-HasFile _ 4 _ s refl (put_config-Makes w c _ _) e,
      init_steps-HasFile _ 5 _ s refl (put_config-Makes w c _ _) e,
      init_steps-HasFile _ 6 _ s refl (put_config-Makes w c _ _) e,
      init_steps-HasFile _ 7 _ s refl (put_config-Makes w c _ _) e,
      init_steps-HasFile _ 9 _ s refl (put_config-Makes w c _ _) e,
    )
