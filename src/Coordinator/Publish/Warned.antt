-- ===== src/Coordinator/Publish/Warned.antt =====
-- What warnUnmapped of internal/coordinator/coordinator.go remembers and logs.
use go_zendure2mqtt.Common.{
  ◌≤◌, ◌<◌, Bytes, beq_iff, has_key, has_key-append, Value, FloatOps, true, false, List, [], ◌∷◌,
  ◌≡◌, refl, arith, length,
}
use go_zendure2mqtt.Process.Points.{Point}
use go_zendure2mqtt.Coordinator.Publish.{
  StatePlane, max_unmapped_warnings, warning_key, warn_key, warn_unmapped, publish_points,
}

-- what one round does to the memory
record Remembers (k : Bytes) (seen seen' lines : List Bytes) : Type 0 where
  keeps : has_key k seen ≡ true → has_key k seen' ≡ true
  grows : length seen ≤ length seen'
  bounded : length seen ≤ max_unmapped_warnings → length seen' ≤ max_unmapped_warnings
  quiet : has_key k seen ≡ true → has_key k lines ≡ false
  learns : has_key k lines ≡ true → length seen' < max_unmapped_warnings → has_key k seen' ≡ true

module _ {F : Type 0} ⦃fl : FloatOps F⦄ (print : Value F → Bytes) (status : List Bytes → Bytes)
    (plane : StatePlane F) (sn : Bytes) where
  Remembers-warn_unmapped :
      (k : Bytes) (p : Point F) (seen : List Bytes)
      → Remembers k seen
          (warn_unmapped print status plane sn p seen).0
          (warn_unmapped print status plane sn p seen).1
  unfolding warn_unmapped warn_key has_key
  Remembers-warn_unmapped k p seen = record {
    keeps = λ h. ground arith;
    grows = ground arith;
    bounded = λ h. ground arith;
    quiet = λ h. ground (arith, beq_iff (warning_key print sn p) k);
    learns = λ h l. ground (arith, beq_iff (warning_key print sn p) k);
  }

  Remembers-publish_points :
      (k : Bytes) (ps : List (Point F)) (seen : List Bytes)
      → Remembers k seen
          (publish_points print status plane sn ps seen).0
          (publish_points print status plane sn ps seen).1
  unfolding publish_points has_key
  Remembers-publish_points k [] seen = record {
    keeps = λ h. h;
    grows = omega arith;
    bounded = λ h. h;
    quiet = λ h. refl;
    learns = λ h l. cc;
  }
  Remembers-publish_points k (p ∷ ps) seen =
      let mid = (warn_unmapped print status plane sn p seen).0 in
      let line = (warn_unmapped print status plane sn p seen).1 in
      let lines = (publish_points print status plane sn ps mid).1 in
      let one = Remembers-warn_unmapped k p seen in
      let rest = Remembers-publish_points k ps mid in
      record {
        keeps = λ h. rest.keeps (one.keeps h);
        grows = omega (arith, one.grows, rest.grows);
        bounded = λ h. rest.bounded (one.bounded h);
        quiet =
            λ h. ground (arith, has_key-append k line lines, one.quiet h, rest.quiet (one.keeps h));
        learns = λ h l.
            ground
              (arith, has_key-append k line lines, one.learns, rest.learns, rest.keeps, rest.grows);
      }

  -- The warnings of two reports in a row: the memory never holds more than 256 keys, and a key that
  -- the first report logged is not logged for the second, unless the memory is full by then.
  pub publish_points-warns :
      (k : Bytes) (ps qs : List (Point F)) (seen : List Bytes)
      → length seen ≤ max_unmapped_warnings
      → (length (publish_points print status plane sn ps seen).0 ≤ max_unmapped_warnings)
        × (has_key k (publish_points print status plane sn ps seen).1 ≡ true
            → length (publish_points print status plane sn ps seen).0 < max_unmapped_warnings
            → has_key k
                (publish_points print status plane sn qs
                  (publish_points print status plane sn ps seen).0).1
              ≡ false)
  publish_points-warns k ps qs seen h =
      let first = Remembers-publish_points k ps seen in
      (
        first.bounded h,
        λ logged room.
            (Remembers-publish_points k qs (publish_points print status plane sn ps seen).0).quiet
              (first.learns logged room),
      )
