-- ===== src/Virtual/Laws.antt =====
-- What a switch writes against what its state reads: internal/virtual/virtual.go.
use go_zendure2mqtt.Common.{
  Bytes, str, beq, lookup, copy, lookup-copy, Map, Value, FloatOps, float, int, some, Bool, true,
  false, [], ◌∷◌, ◌&&◌, ℤ, pos, eqb_ℤ, ltb_ℤ, ◌≡◌, refl, arith,
}
use go_zendure2mqtt.Process.Points.{Report}
use go_zendure2mqtt.Virtual.{write_props, prop_int, is_active, charge_switch, discharge_switch}

module _ {F : Type 0} ⦃fl : FloatOps F⦄ where
  -- An integer that was written comes back in a report as the float64 of its value.
  unfoldable pub reported_props : Map (Value F) → Map (Value F)
  reported_props [] = []
  reported_props ((k, int n) ∷ m) = (k, float (fl.of_int n)) ∷ reported_props m
  reported_props ((k, v) ∷ m) = (k, v) ∷ reported_props m

  prop_int-copy :
      (r : Report F) (w : Map (Value F)) (key : Bytes) (n : ℤ)
      → lookup key w ≡ some (float (fl.of_int n))
      → ((k : ℤ) → fl.to_int (fl.of_int k) ≡ k)
      → prop_int (some (record r { properties = copy r.properties w })) key ≡ n
  unfolding prop_int
  prop_int-copy r w key n h exact = ground (arith, h, lookup-copy key r.properties w, exact n)

  -- The state read from what was just written.
  active-copy :
      (mode : ℤ) (limit : Bytes) (r : Report F) (w : Map (Value F)) (m n : ℤ)
      → lookup (str "acMode") w ≡ some (float (fl.of_int m))
      → lookup limit w ≡ some (float (fl.of_int n))
      → ((k : ℤ) → fl.to_int (fl.of_int k) ≡ k)
      → is_active mode limit (some (record r { properties = copy r.properties w }))
        ≡ (eqb_ℤ m mode && ltb_ℤ (pos 0) n)
  unfolding is_active
  active-copy mode limit r w m n hm hn exact =
      rw (prop_int-copy r w (str "acMode") m hm exact, prop_int-copy r w limit n hn exact)

  -- Let the integers a switch writes survive float64. A unit that takes what a switch writes and
  -- reports it is read back in the state that was asked for: each switch with a positive limit is on
  -- behind its `on` and off behind its `off`, and the other switch is off behind both.
  pub write_props-active :
      (charge_w discharge_w : ℤ) (r : Report F) (on : Bool)
      → ((n : ℤ) → fl.to_int (fl.of_int n) ≡ n)
      → ltb_ℤ (pos 0) charge_w ≡ true
      → ltb_ℤ (pos 0) discharge_w ≡ true
      → ((charge_switch charge_w).active (
            some (record r {
              properties =
                  copy r.properties (reported_props (write_props (charge_switch charge_w) on));
            }))
          ≡ on)
        × ((discharge_switch discharge_w).active (
              some (record r {
                properties =
                    copy r.properties (reported_props (write_props (charge_switch charge_w) on));
              }))
            ≡ false)
        × ((discharge_switch discharge_w).active (
              some (record r {
                properties =
                    copy r.properties
                      (reported_props (write_props (discharge_switch discharge_w) on));
              }))
            ≡ on)
        × ((charge_switch charge_w).active (
              some (record r {
                properties =
                    copy r.properties
                      (reported_props (write_props (discharge_switch discharge_w) on));
              }))
            ≡ false)
  unfolding charge_switch discharge_switch write_props reported_props lookup beq
  write_props-active charge_w discharge_w r true exact hc hd = (
    cc (active-copy (pos 1) (str "inputLimit") r _ (pos 1) charge_w refl refl exact, hc),
    active-copy (pos 2) (str "outputLimit") r _ (pos 1) (pos 0) refl refl exact,
    cc (active-copy (pos 2) (str "outputLimit") r _ (pos 2) discharge_w refl refl exact, hd),
    active-copy (pos 1) (str "inputLimit") r _ (pos 2) (pos 0) refl refl exact,
  )
  write_props-active charge_w discharge_w r false exact hc hd = (
    active-copy (pos 1) (str "inputLimit") r _ (pos 1) (pos 0) refl refl exact,
    active-copy (pos 2) (str "outputLimit") r _ (pos 1) (pos 0) refl refl exact,
    active-copy (pos 2) (str "outputLimit") r _ (pos 2) (pos 0) refl refl exact,
    active-copy (pos 1) (str "inputLimit") r _ (pos 2) (pos 0) refl refl exact,
  )
