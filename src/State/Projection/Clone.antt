-- ===== src/State/Projection/Clone.antt =====
-- cloneProjection, cloneHealth and cloneOperation of pkg/state/coordinator.go. A copy of a map has
-- the entries of the map; what a copy changes is in `clone_value`.
use mathlib.Core.Option
use tmuxatlas.Common.{◌≡◌, refl, ap, Option, none, some, arith, map_values, map_values_fix}
use tmuxatlas.State.Values.{clone_value, clone_fields, clone_value_idem, clone_fields_idem}
use tmuxatlas.State.Projection.{Activity, Health, Projection, Operation}

-- value.Data = cloneJSONValue(value.Data)
unfoldable pub clone_activity : Activity → Activity
clone_activity a = record a { payload = clone_value a.payload }

unfoldable pub clone_health : Health → Health
clone_health h = record h { facts = Option.map clone_fields h.facts }

unfoldable pub clone_projection : Projection → Projection
clone_projection source = record source {
  activity = map_values clone_activity source.activity;
  health = map_values clone_health source.health;
}

-- Pointers to values without an `any` are copied as they are.
unfoldable pub clone_operation : Operation → Operation
clone_operation source = record source {
  activity = Option.map clone_activity source.activity;
  health = Option.map clone_health source.health;
}

pub clone_activity_idem : (a : Activity) → clone_activity (clone_activity a) ≡ clone_activity a
unfolding clone_activity
clone_activity_idem a = ground (arith, clone_value_idem a.payload)

pub clone_health_idem : (h : Health) → clone_health (clone_health h) ≡ clone_health h
unfolding clone_health
clone_health_idem h = ap (λ f. record h { facts = f }) (facts_idem h.facts)
  where
    facts_idem :
        (f : Option _)
        → Option.map clone_fields (Option.map clone_fields f) ≡ Option.map clone_fields f
    facts_idem none = refl
    facts_idem (some f) = ap some (clone_fields_idem f)

pub clone_projection_idem :
    (p : Projection) → clone_projection (clone_projection p) ≡ clone_projection p
unfolding clone_projection
clone_projection_idem p = ground (
  arith,
  map_values_fix clone_activity p.activity clone_activity_idem,
  map_values_fix clone_health p.health clone_health_idem,
)
