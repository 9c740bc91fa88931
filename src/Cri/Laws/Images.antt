-- ===== src/Cri/Laws/Images.antt =====
-- `PullImage` and `RemoveImage` of pkg/cri/cri.go.
use runkube.Common.{
  ℕ, ◌+◌, ◌≡◌, refl, String, Bool, true, Option, none, some, [], ◌∷◌, arith, is_some, lookup,
  insert, values, Dict, lookup-insert, head?, select, ◌==◌, if◌then◌else◌,
}
use runkube.Cri.Objects.{ImageSpec, get_image_name}
use runkube.Cri.Model.{
  Image, Store, new_image, add_image, image_matches, image_differs, get_image, image_name_filter,
}
use runkube.Cri.Runtime.{Runtime}
use runkube.Cri.Service.{cancelled, ok, err}
use runkube.Cri.Images.{store_image, pull_image}
use runkube.Cri.Sound.{IsSound, HasTime, after_wait, await_lem}

abbrev pub pulled_store : Option ImageSpec → Store → Store
pulled_store image st = record st {
  images = insert (get_image_name image) (new_image image) st.images;
}

module _ (clock : ℕ → ℕ) (r : Runtime) (sound : IsSound r) (time : HasTime r) where
  pub pull_image_eq :
      (picks_done : Bool) (image : Option ImageSpec)
      → pull_image clock picks_done image r ≡ (
        (if picks_done then err cancelled else ok (get_image_name image)),
        after_wait (pulled_store image r.store) r,
      )
  unfolding pull_image add_image
  pull_image_eq picks_done image = ground (
    arith,
    await_lem r clock (store_image image) (pulled_store image r.store) sound.idle time refl,
  )

  -- On a sound runtime with room for ten ticks, after `PullImage` of an image the image is there
  -- under its name, ten ticks later, also if the call was cancelled meanwhile; every other image,
  -- the sandboxes and the containers are as before.
  pub pull_image_lem :
      (picks_done : Bool) (image : ImageSpec)
      → let out = pull_image clock picks_done (some image) r in
        (out.0 ≡ (if picks_done then err cancelled else ok image.image))
        × ((k : String)
            → lookup k out.1.store.images ≡ (
                if image.image == k
                then some (new_image (some image))
                else lookup k r.store.images))
        × (out.1.store.sandboxes ≡ r.store.sandboxes)
        × (out.1.store.containers ≡ r.store.containers)
        × (out.1.seq ≡ r.seq + 10)
  pull_image_lem picks_done image = rw (pull_image_eq picks_done (some image)) (
    refl,
    (λ k. lookup-insert image.image k (new_image (some image)) r.store.images),
    refl,
    refl,
    refl,
  )

select-insert :
    (p : Image → Bool) (k : String) (v : Image) (m : Dict Image)
    → p v ≡ true
    → is_some (head? (select p (values (insert k v m)))) ≡ true
unfolding insert
select-insert p k v [] h = ground arith
select-insert p k v ((j, w) ∷ m) h = ground (arith, select-insert p k v m h)

-- An image without a specification passes every filter.
nil_image_matches :
    (id : String) → image_matches (some (image_name_filter id)) (new_image none) ≡ true
unfolding image_matches image_differs
nil_image_matches id = ground arith

-- On a sound runtime with room for ten ticks, after `PullImage` of a request without an image
-- `GetImage` finds an image under every name.
pub pull_nil_image :
    (clock : ℕ → ℕ) (r : Runtime)
    → IsSound r
    → HasTime r
    → (picks_done : Bool) (id : String)
    → is_some (get_image id (pull_image clock picks_done none r).1.store) ≡ true
unfolding get_image
pull_nil_image clock r sound time picks_done id =
    rw (pull_image_eq clock r sound time picks_done none)
      (select-insert _ "" (new_image none) r.store.images (nil_image_matches id))
