-- ===== src/Cri/Images.antt =====
-- pkg/cri/cri.go: the handlers for images.
use runkube.Common.{ℕ, String, Bool, true, false, Option, none, some, List, map}
use runkube.Cri.Objects.{ImageSpec, get_image_name}
use runkube.Cri.Model.{Image, new_image, add_image, remove_image, list_images, get_image}
use runkube.Cri.Runtime.{Callback}
use runkube.Cri.Service.{cancelled, Handler, ◌>>◌, pure, require, query, modify, await}

-- The reply's `Image`; its size is the constant 1.
pub record ImageReply : Type 0 where
  pub id : String
  pub size : ℕ

abbrev image_reply : Image → ImageReply
image_reply x = record { id = get_image_name x.i; size = 1 }

unfoldable pub list_images_handler : Handler (List ImageReply)
list_images_handler = query (λ st. map image_reply (list_images none st))

-- A missing image is an empty reply. `req.Image.GetImage()` is safe on nil.
unfoldable pub image_status : Option ImageSpec → Handler (Option ImageReply)
image_status image = query (λ st. elim (get_image (get_image_name image) st) [
  | none ↦ none
  | some o ↦ some (image_reply o)
])

-- What `PullImage` enqueues; it closes `ch` too.
unfoldable pub store_image : Option ImageSpec → Callback
store_image image clock st = some (add_image (get_image_name image) (new_image image) st)

-- `Enqueue` returns when the image is stored, so `ch` is closed when `select` is reached. A context
-- that is done by then may still be picked: `picks_done`.
unfoldable pub pull_image : (ℕ → ℕ) → Bool → Option ImageSpec → Handler String
unfolding store_image
pull_image clock picks_done image = do
  await clock 10 (store_image image)
  require (elim picks_done [ true ↦ false | false ↦ true ]) cancelled
  pure (get_image_name image)

unfoldable pub remove_image_handler : Option ImageSpec → Handler (Unit {0})
remove_image_handler image = modify (remove_image (get_image_name image))
