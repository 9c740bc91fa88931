-- ===== src/Cri/Consistent.antt =====
-- The well-formedness of the runtime's maps, and the updates that keep it.
use runkube.Common.{
  ◌≡◌, refl, ◌≢◌, String, Option, none, some, arith, lookup, insert, remove, Dict, Entries,
  Entries-mono, insert-Entries, remove-Entries, Distinct, insert-Distinct, remove-Distinct,
  lookup-insert,
}
use runkube.Cri.Objects
use runkube.Cri.Model.{Sandbox, Container, Image, Store, empty_store}
use runkube.Cri.Model.Lookup.{
  SandboxAgrees, ContainerAgrees, ImageAgrees, SandboxesAgree, ContainersAgree, ImagesAgree,
}

-- The container's sandbox is there.
abbrev pub IsHoused : Dict Sandbox → Option Objects.Container → Type 0
IsHoused sandboxes none = ⊥
IsHoused sandboxes (some p) = lookup p.pod_sandbox_id sandboxes ≢ none

abbrev pub AllHoused : Dict Sandbox → Dict Container → Type 0
AllHoused sandboxes = Entries (λ k x. IsHoused sandboxes x.p)

pub record IsConsistent (st : Store) : Type 0 where
  pub sandboxes : SandboxesAgree st.sandboxes
  pub containers : ContainersAgree st.containers
  pub images : ImagesAgree st.images
  pub one_sandbox : Distinct st.sandboxes
  pub one_container : Distinct st.containers
  pub housed : AllHoused st.sandboxes st.containers

pub empty_store-IsConsistent : IsConsistent empty_store
empty_store-IsConsistent = record {
  sandboxes = tt;
  containers = tt;
  images = tt;
  one_sandbox = tt;
  one_container = tt;
  housed = tt;
}

IsHoused-insert :
    (k : String) (sb : Sandbox) (m : Dict Sandbox) (p : Option Objects.Container)
    → IsHoused m p
    → IsHoused (insert k sb m) p
IsHoused-insert k sb m none h = h
IsHoused-insert k sb m (some p) h = ground (arith, lookup-insert k p.pod_sandbox_id sb m)

module _ (st : Store) (ok : IsConsistent st) where
  pub put_sandbox-IsConsistent :
      (k : String) (sb : Sandbox)
      → SandboxAgrees k sb.p sb.s
      → IsConsistent (record st { sandboxes = insert k sb st.sandboxes })
  put_sandbox-IsConsistent k sb a = record {
    sandboxes = insert-Entries _ k sb st.sandboxes a ok.sandboxes;
    containers = ok.containers;
    images = ok.images;
    one_sandbox = insert-Distinct k sb st.sandboxes ok.one_sandbox;
    one_container = ok.one_container;
    housed =
        Entries-mono _ _ (λ _ x h. IsHoused-insert k sb st.sandboxes x.p h) st.containers ok.housed;
  }

  pub put_container-IsConsistent :
      (k : String) (c : Container)
      → ContainerAgrees k c.p c.s
      → IsHoused st.sandboxes c.p
      → IsConsistent (record st { containers = insert k c st.containers })
  put_container-IsConsistent k c a h = record {
    sandboxes = ok.sandboxes;
    containers = insert-Entries _ k c st.containers a ok.containers;
    images = ok.images;
    one_sandbox = ok.one_sandbox;
    one_container = insert-Distinct k c st.containers ok.one_container;
    housed = insert-Entries _ k c st.containers h ok.housed;
  }

  pub drop_container-IsConsistent :
      (k : String) → IsConsistent (record st { containers = remove k st.containers })
  drop_container-IsConsistent k = record {
    sandboxes = ok.sandboxes;
    containers = remove-Entries _ k st.containers ok.containers;
    images = ok.images;
    one_sandbox = ok.one_sandbox;
    one_container = remove-Distinct k st.containers ok.one_container;
    housed = remove-Entries _ k st.containers ok.housed;
  }

  -- A sandbox may go when no container is left in it.
  pub drop_sandbox-IsConsistent :
      (k : String)
      → AllHoused (remove k st.sandboxes) st.containers
      → IsConsistent (record st { sandboxes = remove k st.sandboxes })
  drop_sandbox-IsConsistent k h = record {
    sandboxes = remove-Entries _ k st.sandboxes ok.sandboxes;
    containers = ok.containers;
    images = ok.images;
    one_sandbox = remove-Distinct k st.sandboxes ok.one_sandbox;
    one_container = ok.one_container;
    housed = h;
  }

  pub put_image-IsConsistent :
      (k : String) (img : Image)
      → ImageAgrees k img.i
      → IsConsistent (record st { images = insert k img st.images })
  put_image-IsConsistent k img a = record {
    sandboxes = ok.sandboxes;
    containers = ok.containers;
    images = insert-Entries _ k img st.images a ok.images;
    one_sandbox = ok.one_sandbox;
    one_container = ok.one_container;
    housed = ok.housed;
  }

  pub drop_image-IsConsistent :
      (k : String) → IsConsistent (record st { images = remove k st.images })
  drop_image-IsConsistent k = record {
    sandboxes = ok.sandboxes;
    containers = ok.containers;
    images = remove-Entries _ k st.images ok.images;
    one_sandbox = ok.one_sandbox;
    one_container = ok.one_container;
    housed = ok.housed;
  }

-- The halves of a well-formed entry.
pub SandboxAgrees-parts :
    (k : String) (p : Option Objects.PodSandbox) (s : Option Objects.PodSandboxStatus)
    → SandboxAgrees k p s
    → (p' : Objects.PodSandbox) × (s' : Objects.PodSandboxStatus) × (p ≡ some p')
      × (s ≡ some s')
      × (k ≢ "")
      × (p'.id ≡ k)
      × (s'.id ≡ k)
      × (s'.state ≡ p'.state)
SandboxAgrees-parts k (some p) (some s) (ne, a, b, c) = (p, s, refl, refl, ne, a, b, c)
SandboxAgrees-parts k (some p) none h = absurd h
SandboxAgrees-parts k none s h = absurd h

pub ContainerAgrees-parts :
    (k : String) (p : Option Objects.Container) (s : Option Objects.ContainerStatus)
    → ContainerAgrees k p s
    → (p' : Objects.Container) × (s' : Objects.ContainerStatus) × (p ≡ some p')
      × (s ≡ some s')
      × (k ≢ "")
      × (p'.id ≡ k)
      × (s'.id ≡ k)
      × (s'.state ≡ p'.state)
ContainerAgrees-parts k (some p) (some s) (ne, a, b, c) = (p, s, refl, refl, ne, a, b, c)
ContainerAgrees-parts k (some p) none h = absurd h
ContainerAgrees-parts k none s h = absurd h
