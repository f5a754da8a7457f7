-- ===== src/Process/OwnersLaws.antt =====
-- The Home Assistant devices of a list of points: Owners of internal/process/process.go.
use go_zendure2mqtt.Common.{
  Bytes, beq, beq_iff, Bool, false, List, [], ◌∷◌, ◌≡◌, arith, has_key, ◌&&◌, ◌||◌, not, Bool-cases,
  inl, inr,
}
use go_zendure2mqtt.Process.Points.{Point, mints_nothing, owners_loop, owners}

abbrev pub AllDifferent : List Bytes → Type 0
AllDifferent [] = Unit
AllDifferent (k ∷ ks) = (has_key k ks ≡ false) × AllDifferent ks

module _ {F : Type 0} where
  -- whether a point of the owner mints an entity
  unfoldable pub has_entity : Bytes → List (Point F) → Bool
  has_entity k [] = false
  has_entity k (p ∷ ps) = beq p.pack_sn k && not (mints_nothing p) || has_entity k ps

  has_key-owners_loop :
      (k : Bytes) (seen : List Bytes) (ps : List (Point F))
      → has_key k (owners_loop seen ps) ≡ (has_entity k ps && not (has_key k seen))
  unfolding owners_loop has_entity has_key
  has_key-owners_loop k seen [] = ground arith
  has_key-owners_loop k seen (p ∷ ps) = ground (
    arith,
    beq_iff p.pack_sn k,
    has_key-owners_loop k seen ps,
    has_key-owners_loop k (p.pack_sn ∷ seen) ps,
  )

  AllDifferent-owners_loop :
      (seen : List Bytes) (ps : List (Point F)) → AllDifferent (owners_loop seen ps)
  unfolding owners_loop has_key
  AllDifferent-owners_loop seen [] = tt
  AllDifferent-owners_loop seen (p ∷ ps) =
      elim (Bool-cases (mints_nothing p || has_key p.pack_sn seen)) [
        | inl e ↦ rw e (AllDifferent-owners_loop seen ps)
        | inr e ↦ rw e (
          ground (
            arith,
            beq_iff p.pack_sn p.pack_sn,
            has_key-owners_loop p.pack_sn (p.pack_sn ∷ seen) ps,
          ),
          AllDifferent-owners_loop (p.pack_sn ∷ seen) ps,
        )
      ]

  -- The owners are the serials (the empty one for the unit) of exactly the points that mint an
  -- entity, each listed once.
  pub owners_lem :
      (ps : List (Point F))
      → ((k : Bytes) → has_key k (owners ps) ≡ has_entity k ps) × AllDifferent (owners ps)
  unfolding owners has_key
  owners_lem ps = (λ k. ground (arith, has_key-owners_loop k [] ps), AllDifferent-owners_loop [] ps)
