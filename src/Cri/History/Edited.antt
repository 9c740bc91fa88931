-- ===== src/Cri/History/Edited.antt =====
-- The calls of a history that change the maps at once, and ticks, from a sound runtime.
use runkube.Common.{
  ℕ, ◌+◌, ◌≡◌, refl, ◌≢◌, String, true, Option, none, some, [], arith, eq_iff, lookup, remove,
  Option-cases, Bool-cases, ◌==◌, inl, inr, ◌∙◌,
}
use runkube.Cri.Objects.{get_image_name, ImageSpec, Externals}
use runkube.Cri.Model.{remove_container, remove_image, get_container}
use runkube.Cri.Runtime.{Runtime, done, tick, run_events}
use runkube.Cri.Service.{invalid_argument, not_found, already_exists, ok, err}
use runkube.Cri.Consistent.{
  IsConsistent, put_container-IsConsistent, drop_container-IsConsistent, drop_sandbox-IsConsistent,
  drop_image-IsConsistent,
}
use runkube.Cri.Sandboxes.{remove_pod_sandbox}
use runkube.Cri.Containers.{
  CreateContainerRequest, get_config, create_container, remove_container_handler,
  new_container_object, new_container_status,
}
use runkube.Cri.Images.{remove_image_handler}
use runkube.Cri.Sound.{IsSound, HasTime, with_store}
use runkube.Cri.Laws.Remove.{is_used, unused-AllHoused, without_sandbox, remove_pod_sandbox_cases}
use runkube.Cri.Laws.Create.{
  container_id, container_id-ne-empty, created_container, created_store, create_container_cases,
}
use runkube.Cri.History.{reported, ticked, IsServed}
use runkube.Cri.History.Served.{kept, stored}

remove_unnamed :
    (env : Externals) (r : Runtime) (sbid : String)
    → (sbid == "") ≡ true
    → remove_pod_sandbox env sbid r ≡ (err invalid_argument, r)
unfolding remove_pod_sandbox
remove_unnamed env r sbid e = ground arith

create_unnamed :
    (env : Externals) (clock : ℕ → ℕ) (r : Runtime) (req : CreateContainerRequest)
    → (req.pod_sandbox_id == "") ≡ true
    → create_container env clock req r ≡ (err invalid_argument, r)
unfolding create_container
create_unnamed env clock r req e = ground arith

module _ (r : Runtime) (sound : IsSound r) where
  module _ (env : Externals) where
    pub remove_pod_sandbox-IsServed :
        (sbid : String) → IsServed r (reported (remove_pod_sandbox env sbid r))
    remove_pod_sandbox-IsServed sbid = elim (Bool-cases (sbid == "")) [
      | inl e ↦ rw (remove_unnamed env r sbid e) (kept r sound)
      | inr e ↦
          let ne : sbid ≢ "" = λ h. ground (arith, eq_iff sbid "") in
          let same = remove_pod_sandbox_cases env r sound sbid ne in
          elim (Option-cases (lookup sbid r.store.sandboxes)) [
            | inl gone ↦
                let out : remove_pod_sandbox env sbid r ≡ (err not_found, r) = same ∙ rw gone in
                rw out (kept r sound)
            | inr (sb, there) ↦ elim (Bool-cases (is_used sbid r.store.containers)) [
              | inl used ↦
                  let out : remove_pod_sandbox env sbid r ≡ (err invalid_argument, r) =
                    same ∙ rw (there, used) in
                  rw out (kept r sound)
              | inr free ↦
                  let out : remove_pod_sandbox env sbid r
                      ≡ (ok tt, with_store (without_sandbox sbid r.store) r) =
                    same ∙ rw (there, free) in
                  rw out (
                    stored r sound (without_sandbox sbid r.store) (
                      drop_sandbox-IsConsistent r.store sound.consistent sbid (
                        unused-AllHoused sbid r.store.sandboxes r.store.containers free
                          sound.consistent.housed)))
            ]
          ]
    ]

    created-IsConsistent :
        (clock : ℕ → ℕ) (req : CreateContainerRequest) (image : ImageSpec)
        → lookup req.pod_sandbox_id r.store.sandboxes ≢ none
        → IsConsistent (created_store env clock req image r.store)
    unfolding new_container_object new_container_status
    created-IsConsistent clock req image there =
        put_container-IsConsistent r.store sound.consistent (container_id env clock req)
          (created_container env clock req image)
          (container_id-ne-empty env clock req, refl, refl, refl) there

    pub create_container-IsServed :
        (clock : ℕ → ℕ) (req : CreateContainerRequest) (image : ImageSpec)
        → (get_config req).image ≡ some image
        → image.image ≢ ""
        → IsServed r (reported (create_container env clock req r))
    create_container-IsServed clock req image given named =
        elim (Bool-cases (req.pod_sandbox_id == "")) [
          | inl e ↦ rw (create_unnamed env clock r req e) (kept r sound)
          | inr e ↦
              let ne : req.pod_sandbox_id ≢ "" =
                λ h. ground (arith, eq_iff req.pod_sandbox_id "") in
              let same = create_container_cases env clock r sound req image ne given named in
              elim (Option-cases (lookup req.pod_sandbox_id r.store.sandboxes)) [
                | inl e1 ↦
                    let out : create_container env clock req r ≡ (err not_found, r) =
                      same ∙ rw e1 in
                    rw out (kept r sound)
                | inr (sb, e1) ↦ elim (Option-cases (lookup image.image r.store.images)) [
                  | inl e2 ↦
                      let out : create_container env clock req r ≡ (err not_found, r) =
                        same ∙ rw (e1, e2) in
                      rw out (kept r sound)
                  | inr (img, e2) ↦
                      elim (Option-cases (lookup (container_id env clock req) r.store.containers)) [
                        | inr (c, e3) ↦
                            let out : create_container env clock req r ≡ (err already_exists, r) =
                              same ∙ rw (e1, e2, e3) in
                            rw out (kept r sound)
                        | inl e3 ↦
                            let st = created_store env clock req image r.store in
                            let out : create_container env clock req r
                                ≡ (ok (container_id env clock req), with_store st r) =
                              same ∙ rw (e1, e2, e3) in
                            rw out
                              (stored r sound st (created-IsConsistent clock req image (λ h. cc)))
                      ]
                ]
              ]
        ]

    pub remove_container-IsServed :
        (scid : String) → IsServed r (reported (remove_container_handler env scid r))
    unfolding remove_container_handler remove_container
    remove_container-IsServed scid = elim (Option-cases (get_container env scid r.store)) [
      | inl e ↦ rw e (kept r sound)
      | inr (c, e) ↦ rw e (
          stored r sound (record (r.store) { containers = remove scid r.store.containers })
            (drop_container-IsConsistent r.store sound.consistent scid))
    ]

  pub remove_image-IsServed :
      (image : Option ImageSpec) → IsServed r (reported (remove_image_handler image r))
  unfolding remove_image_handler remove_image
  remove_image-IsServed image =
      stored r sound _ (drop_image-IsConsistent r.store sound.consistent (get_image_name image))

  pub elapse-IsServed : (clock : ℕ → ℕ) → HasTime r → IsServed r (ticked r (tick clock r))
  unfolding tick run_events
  elapse-IsServed clock time =
      let quiet = sound.idle.quiet in
      let r' : Runtime = record r { seq = r.seq + 1; events = [] } in
      let out : tick clock r ≡ done r' = ground arith in
      rw out (
        refl,
        record {
          idle = record { ticking = sound.idle.ticking; quiet = refl; fresh = sound.idle.fresh };
          consistent = sound.consistent;
        },
        omega arith,
      )
