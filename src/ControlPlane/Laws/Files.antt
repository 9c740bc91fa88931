-- ===== src/ControlPlane/Laws/Files.antt =====
-- controlplane.go: a step that writes a file, and ends well, has written it.
use runkube.Common.{◌≡◌, String, arith}
use runkube.Disk.{HasFile}
use runkube.Pki.{Crypto, done}
use runkube.Ref.Laws.Stored.{write_kube_config-HasFile, write_config-HasFile}
use runkube.ControlPlane.{Config, World, Machine, Step, kube_config_ref, config_ref}
use runkube.ControlPlane.Configs.{put_kube_config, put_config}

module _ {x : Crypto} where
  -- After a good end the file is there.
  abbrev pub Makes : String → Step x → Type 0
  Makes q m = (s : Machine x) → (m s).0 ≡ done → HasFile (m s).1.disk q

  module _ (w : World x) (c : Config) where
    pub put_kube_config-Makes :
        (name text : String) → Makes (kube_config_ref c name) (put_kube_config x w c name text)
    unfolding put_kube_config
    put_kube_config-Makes name text s e =
        ground (arith, write_kube_config-HasFile w.of_text (kube_config_ref c name) text s.disk)

    pub put_config-Makes :
        (name text : String) → Makes (config_ref c name) (put_config x w c name text)
    unfolding put_config
    put_config-Makes name text s e =
        ground (arith, write_config-HasFile w.of_text (config_ref c name) text s.disk)
