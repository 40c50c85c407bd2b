-- ===== src/Kds/Subscription.antt =====
-- The stream that the kitchen display asks the broker for (apps/kds/app/page.tsx).
use hotelia.Prelude.{Text, codes, List, [], ◌∷◌, ◌++◌}

-- `SUBSCRIBED`
abbrev pub subscribed : List Text
subscribed =
    codes "order.placed"
    ∷ codes "order.confirmed"
    ∷ codes "order.preparing"
    ∷ codes "order.ready"
    ∷ codes "order.cancelled"
    ∷ codes "order.completed"
    ∷ []

-- `join(',')`
abbrev pub join : List Text → Text
join [] = []
join (s ∷ []) = s
join (s ∷ t ∷ l) = s ++ 44 ∷ join (t ∷ l)
