-- ===== src/Coordinator/Reconcile/Signature.antt =====
-- When reconcileOrphans of internal/coordinator/coordinator.go begins a sweep.
use go_zendure2mqtt.Common.{
  ℕ, Bytes, beq, beq_refl, beq_ne, lookup, lookup-insert, has_key, sort_keys, contains-sort_keys,
  split_levels, join, Free, split_levels-join, some, true, false, not, List, [], ◌∷◌, ◌≡◌, ◌≢◌,
  refl, sym, ap, ◌∙◌, arith,
}
use go_zendure2mqtt.Common.Sorting.{sort_keys-Perm, Free-sort_keys}
use mathlib.Core.List.{Perm}
use go_zendure2mqtt.Hass.Publish.{remove_key}
use go_zendure2mqtt.Coordinator.Reconcile.{
  newline, discovery_signature, Gate, reconcile_orphans, reconciled,
}

-- texts that a joined text gives back: none holds the separator, none is empty
abbrev pub IsTopicSet : List Bytes → Type 0
IsTopicSet ts = Free newline ts × (has_key [] ts ≡ false)

not_joined :
    (sep : ℕ) (q : Bytes) (qs : List Bytes)
    → Free sep (q ∷ qs)
    → has_key [] (q ∷ qs) ≡ false
    → [] ≢ join sep (q ∷ qs)
unfolding has_key split_levels
not_joined sep q qs f n e =
    let parts : [] ∷ [] ≡ q ∷ qs = ap (split_levels sep) e ∙ split_levels-join sep q qs f in
    ground (arith, parts, beq_refl [], n)

join_injective :
    (sep : ℕ) (ps qs : List Bytes)
    → Free sep ps
    → Free sep qs
    → has_key [] ps ≡ false
    → has_key [] qs ≡ false
    → join sep ps ≡ join sep qs
    → ps ≡ qs
unfolding join
join_injective sep [] [] f g n m e = refl
join_injective sep [] (q ∷ qs) f g n m e = absurd (not_joined sep q qs g m e)
join_injective sep (p ∷ ps) [] f g n m e = absurd (not_joined sep p ps f n (sym e))
join_injective sep (p ∷ ps) (q ∷ qs) f g n m e =
    sym (split_levels-join sep p ps f) ∙ ap (split_levels sep) e ∙ split_levels-join sep q qs g

-- Topic sets with one signature have the same members.
members-discovery_signature :
    (k : Bytes) (xs ys : List Bytes)
    → IsTopicSet xs
    → IsTopicSet ys
    → discovery_signature xs ≡ discovery_signature ys
    → has_key k xs ≡ has_key k ys
unfolding discovery_signature
members-discovery_signature k xs ys hx hy e =
    let same =
      join_injective newline (sort_keys xs) (sort_keys ys) (Free-sort_keys newline xs hx.0)
        (Free-sort_keys newline ys hy.0) (contains-sort_keys [] xs ∙ hx.1)
        (contains-sort_keys [] ys ∙ hy.1) e in
    sym (contains-sort_keys k xs) ∙ ap (has_key k) same ∙ contains-sort_keys k ys

has_key-remove_key : (k : Bytes) (ks : List Bytes) → has_key k (remove_key k ks) ≡ false
unfolding has_key remove_key
has_key-remove_key k [] = refl
has_key-remove_key k (j ∷ ks) = ground (arith, has_key-remove_key k ks)

-- the gate behind a sweep of a set, or behind a set that began none
abbrev pub gate_behind : Bytes → List Bytes → Gate → Gate
gate_behind sn xs g = reconciled sn (reconcile_orphans sn xs g).0

last-gate_behind :
    (sn : Bytes) (xs : List Bytes) (g : Gate)
    → lookup sn (gate_behind sn xs g).last ≡ some (discovery_signature xs)
unfolding reconcile_orphans reconciled
last-gate_behind sn xs g =
    ground (arith, lookup-insert sn sn (discovery_signature xs) g.last, beq_refl sn)

busy-gate_behind :
    (sn : Bytes) (xs : List Bytes) (g : Gate) → has_key sn (gate_behind sn xs g).busy ≡ false
unfolding reconciled
busy-gate_behind sn xs g = has_key-remove_key sn (reconcile_orphans sn xs g).0.busy

begins :
    (sn : Bytes) (ys : List Bytes) (sig : Bytes) (g : Gate)
    → lookup sn g.last ≡ some sig
    → has_key sn g.busy ≡ false
    → (reconcile_orphans sn ys g).1 ≡ not (beq sig (discovery_signature ys))
unfolding reconcile_orphans
begins sn ys sig g l b = ground (arith, l, b)

-- Behind the reconcile of a set of topics, and its sweep if it began one, a report with the same
-- topics in any order begins no sweep, and a report with a topic more or less begins one, when the
-- topics are not empty and hold no line end.
pub reconcile_orphans-changed :
    (sn : Bytes) (xs ys : List Bytes) (g : Gate)
    → (Perm xs ys → (reconcile_orphans sn ys (gate_behind sn xs g)).1 ≡ false)
      × ((k : Bytes)
          → IsTopicSet xs
          → IsTopicSet ys
          → has_key k xs ≢ has_key k ys
          → (reconcile_orphans sn ys (gate_behind sn xs g)).1 ≡ true)
unfolding discovery_signature
reconcile_orphans-changed sn xs ys g =
    let e =
      begins sn ys (discovery_signature xs) (gate_behind sn xs g) (last-gate_behind sn xs g)
        (busy-gate_behind sn xs g) in
    (
      λ p. ground (arith, e, beq_refl (discovery_signature ys), sort_keys-Perm p),
      λ k hx hy ne. ground (
        arith,
        e,
        beq_ne (discovery_signature xs) (discovery_signature ys)
            (λ same. ne (members-discovery_signature k xs ys hx hy same)),
      ),
    )
