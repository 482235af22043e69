-- ===== src/Aarch64/Machine/Events.antt =====
-- Several barriers and maintenance instructions one after the other.
use mathlib.Core.List.{append_assoc}
use cpu_io.Base.{◌≡◌, List, [], ◌∷◌, ◌++◌, ap, refl, ◌∙◌, some}
use cpu_io.Aarch64.Machine.{Event, Core, M, event, ◌>>◌}

abbrev pub emits : Event → List Event → M (Unit {0})
emits e [] = event e
emits e (f ∷ es) = event e >> emits f es

abbrev pub with_events : Core → List Event → Core
with_events c es = record c { events = c.events ++ es }

pub emits-eq :
    (e : Event) (es : List Event) (c : Core) → emits e es c ≡ some (tt, with_events c (e ∷ es))
emits-eq e [] c = refl
emits-eq e (f ∷ es) c =
    emits-eq f es (with_events c (e ∷ []))
    ∙ ap (λ (l : List Event). some (tt, record c { events = l }))
        (append_assoc c.events (e ∷ []) (f ∷ es))
