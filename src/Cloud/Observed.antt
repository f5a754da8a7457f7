-- ===== src/Cloud/Observed.antt =====
-- The cloud session and its observer together: sessionUp of internal/zendure/cloud/source.go, and
-- DeviceReachable and UpstreamUsable of internal/coordinator/coordinator.go.
use go_zendure2mqtt.Common.{
  Bytes, beq, lookup, lookup-insert, FloatOps, some, Bool, true, false, List, [], ◌∷◌, ◌++◌, ◌||◌,
  ◌≡◌, refl, arith, if◌then◌else◌,
}
use go_zendure2mqtt.Cloud.Session.{CloudDevice, Backend, session_up, all_reachable}
use go_zendure2mqtt.Cloud.Session.Told.{device_reachable, upstream_usable, reading}
use go_zendure2mqtt.Cloud.Session.{Told}
use go_zendure2mqtt.State.Store.{Store, set_upstream, notify}
use go_zendure2mqtt.Coordinator.Online as Online
use go_zendure2mqtt.Coordinator.Online.{World, Setup, Act}

-- the entries of a list of devices with a serial
abbrev pub has_serial : Bytes → List CloudDevice → Bool
has_serial sn [] = false
has_serial sn (d ∷ ds) = beq d.sn sn || has_serial sn ds

module _ {F : Type 0} ⦃fl : FloatOps F⦄ (su : Setup F) where
  -- the coordinator's world behind what the backend tells; a reading goes elsewhere
  unfoldable pub hear : List (Told F) → World F → World F
  hear [] w = w
  hear (device_reachable d b ∷ ts) w = hear ts (Online.device_reachable su d.sn b w).0
  hear (upstream_usable b ∷ ts) w = hear ts (Online.upstream_usable su b w).0
  hear (reading d r ∷ ts) w = hear ts w

  reach-all_reachable :
      (sn : Bytes) (ds : List CloudDevice) (rest : List (Told F)) (w : World F)
      → ((w' : World F) → (hear rest w').reach ≡ w'.reach)
      → lookup sn (hear (all_reachable ds ++ rest) w).reach
        ≡ (if has_serial sn ds then some true else lookup sn w.reach)
  unfolding all_reachable hear Online.device_reachable
  reach-all_reachable sn [] rest w h = rw (h w) refl
  reach-all_reachable sn (d ∷ ds) rest w h = ground (
    arith,
    lookup-insert d.sn sn true w.reach,
    reach-all_reachable sn ds rest (Online.device_reachable su d.sn true w).0 h,
  )

  fields-set_upstream :
      (u : Bool) (s : Store F)
      → ((set_upstream u s).online ≡ s.online) × ((set_upstream u s).upstream ≡ some u)
  unfolding set_upstream notify
  fields-set_upstream u s = (ground arith, ground arith)

  -- When the cloud session comes up, the coordinator holds every device that the login listed for
  -- reachable, and no other device's reachability changes. When the session goes down, no device's
  -- reachability changes, in the coordinator or in the UI's store, where only the upstream is lost.
  pub hear-session_up :
      (sn : Bytes) (b : Backend) (w : World F)
      → (lookup sn (hear (session_up true b) w).reach
          ≡ (if has_serial sn b.devices then some true else lookup sn w.reach))
        × ((hear (session_up false b) w).reach ≡ w.reach)
        × ((s : Store F)
            → w.store ≡ some s
            → (s' : Store F) × ((hear (session_up false b) w).store ≡ some s')
              × (s'.online ≡ s.online)
              × (s'.upstream ≡ some false))
  unfolding session_up hear Online.upstream_usable
  hear-session_up sn b w = (
    reach-all_reachable sn b.devices (upstream_usable true ∷ []) w (λ w'. refl),
    refl,
    λ s e. (
      set_upstream false s,
      rw e refl,
      (fields-set_upstream false s).0,
      (fields-set_upstream false s).1,
    ),
  )
